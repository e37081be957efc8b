-- ===== src/S3/Bucket.antt =====
-- The uploads of `CAS.flush_s3` through `class S3` (spikes/storage/cas.py, spikes/storage/s3.py), against
-- a server that keeps objects.
use klados.Base.{
  ℕ, ◌+◌, ◌≡◌, String, Bool, true, false, not, ◌||◌, length, ◌&&◌, Option, none, some, List, [],
  ◌∷◌, if◌then◌else◌,
}
use klados.Base.Dict.{Dict, lookup, insert}
use klados.Base.Result.{Result, ok, err, failure}
use klados.Codec.{Bytes}
use klados.Cas.{key, is_nil}
use klados.S3.{Crypto, Client, Stamp, Headers, object_uri, put}

-- A server, and what a bucket of it holds. `accepts` says of which keys it stores an object now.
module _ (k : Crypto) (c : Client) {S : Type 0}
    (server : String → String → Headers → Bytes → S → (ℕ × Bytes) × S) (bucket : String)
    (view : S → Dict Bytes) (accepts : String → Bool) where
  -- What S3 documents of PUT and GET, for any request that is signed.
  pub record KeepsObjects : Type 0 where
    pub stored :
        (hd : Headers) (name : String) (body : Bytes) (s : S)
        → accepts name ≡ true
        → let ((status, _), s') = server "PUT" (object_uri k c server bucket name) hd body s in
          (status ≡ 200) × (view s' ≡ insert name body (view s))
    pub refused :
        (hd : Headers) (name : String) (body : Bytes) (s : S)
        → accepts name ≡ false
        → let ((status, _), s') = server "PUT" (object_uri k c server bucket name) hd body s in
          (status ≡ 503) × (view s' ≡ view s)
    pub given :
        (hd : Headers) (name : String) (body : Bytes) (s : S)
        → lookup name (view s) ≡ some body
        → (server "GET" (object_uri k c server bucket name) hd [] s).0 ≡ (200, body)
    pub missing :
        (hd : Headers) (name : String) (s : S)
        → lookup name (view s) ≡ none
        → (server "GET" (object_uri k c server bucket name) hd [] s).0.0 ≡ 404

  -- the first exception is raised
  unfoldable pub both : Result (Unit {0}) → Result (Unit {0}) → Result (Unit {0})
  both (ok _) r = r
  both (err e) r = err e

  abbrev is_err : Result (Unit {0}) → Bool
  is_err (ok _) = false
  is_err (err e) = true

  -- `list(ex.map(…))`, where an upload has `failed` already or not: once one has, those that no worker
  -- has started are cancelled. `started` says of which chunks the upload was begun nevertheless.
  unfoldable pub put_all :
      (ℕ → Stamp) → (String → Bool) → Bool → ℕ → List (String × Bytes) → S → Result (Unit {0}) × S
  unfolding both
  put_all at started failed n [] s = (ok tt, s)
  put_all at started failed n ((h, comp) ∷ pending) s =
      let (r, s') = put k c server (at n) bucket (key h) comp s in
      let (rest, s'') = put_all at started (failed || is_err r) (n + 1) pending s' in
      let cancelled = put_all at started failed (n + 1) pending s in
      if failed && not (started h) then cancelled else (both r rest, s'')

  abbrev counted : ℕ → Result (Unit {0}) → Result ℕ
  counted n (ok _) = ok n
  counted n (err e) = err e

  -- `flush_s3`, on whether there is a bucket, and the queue
  unfoldable pub flush_s3 :
      (ℕ → Stamp) → (String → Bool) → Bool → List (String × Bytes) → S → Result ℕ × S
  unfolding put_all
  flush_s3 at started tiered pending s =
      let (r, s') = put_all at started false 0 pending s in
      if not tiered || is_nil pending then (ok 0, s) else (counted (length pending) r, s')

  -- whether the key of a chunk is accepted
  abbrev pub reaches : String → Bool
  reaches h = accepts (key h)

  module _ (keeps : KeepsObjects) where
    -- what a read makes of an object, or of none
    abbrev pub read_of : Option Bytes → Result Bytes
    read_of none = err (failure "S3 GET")
    read_of (some body) = ok body

    -- The uploads that are made: all up to the first refused one, and those after it that were started.
    pub ran : (String → Bool) → Bool → List (String × Bytes) → List (String × Bytes)
    ran started failed [] = []
    ran started failed ((h, comp) ∷ pending) =
        let rest = ran started (failed || not (reaches h)) pending in
        let cancelled = ran started failed pending in
        if failed && not (started h) then cancelled else (h, comp) ∷ rest
