-- ===== src/Cas/Fetch.antt =====
-- `flush_s3` and `get`: a flush whose uploads all arrive ships every indexed block, and a block that
-- is in reach is got back.
use klados.Base.{
  ℕ, String, ◌≡◌, refl, ap, ◌⊎◌, inl, inr, Bool, true, not, ◌||◌, none, some, List, [], ◌∷◌, arith,
  All, if_both, if◌then◌else◌, ◌≟◌, ≟_iff, Bool-cases,
}
use klados.Base.Dict.{Dict, lookup, insert, contains, contains-insert_self, contains-insert}
use klados.Base.Result.{ok}
use klados.Codec.{Bytes, Codec}
use klados.Cas.{
  Cas, key, upload, all_sent, flush_s3, from_hot, from_cold, get_miss, is_nil, inflate,
}
use klados.Cas.Sound.{IsSound, IsPure, IsChunk, queued, insert-IsPure}

module _ (k : Codec) where
  upload-IsPure :
      (sent : String → Bool) (q : List (String × Bytes)) (d : Dict Bytes)
      → All (IsChunk k) q
      → IsPure k d
      → IsPure k (upload sent q d)
  unfolding upload
  upload-IsPure sent [] d h p = p
  upload-IsPure sent ((j, comp) ∷ q) d ((b, e, z), h) p =
      upload-IsPure sent q (if sent j then insert (key j) comp d else d) h (
        if_both (IsPure k) (sent j) (insert (key j) comp d) d (rw e (insert-IsPure k b comp d p z))
          p)

  upload_grows :
      (sent : String → Bool) (q : List (String × Bytes)) (d : Dict Bytes) (p : String)
      → contains p d ≡ true
      → contains p (upload sent q d) ≡ true
  unfolding upload
  upload_grows sent [] d p h = h
  upload_grows sent ((j, comp) ∷ q) d p h =
      upload_grows sent q (if sent j then insert (key j) comp d else d) p (
        if_both (λ z. contains p z ≡ true) (sent j) (insert (key j) comp d) d
          (contains-insert (key j) p comp d h) h)

  upload_all :
      (sent : String → Bool) (q : List (String × Bytes)) (d : Dict Bytes) (j : String)
      → all_sent sent q ≡ true
      → queued k j q ≡ true
      → contains (key j) (upload sent q d) ≡ true
  unfolding upload all_sent
  upload_all sent [] d j a h = cc
  upload_all sent ((i, comp) ∷ q) d j a h =
      let went : sent i ≡ true = ground arith in
      let others : all_sent sent q ≡ true = ground arith in
      elim (Bool-cases (i ≟ j)) [
        | inl same ↦ rw went (
            upload_grows sent q (insert (key i) comp d) (key j)
              (rw (ap key ((≟_iff i j).0 same)) (contains-insert_self (key j) comp d)))
        | inr differ ↦
            upload_all sent q (if sent i then insert (key i) comp d else d) j others (ground arith)
      ]

  -- A flush that raises nothing leaves the store sound, its queue empty, and every indexed block in
  -- the bucket, where there is one; it reports how many chunks were queued.
  pub record Flushed (s t : Cas) : Type 0 where
    pub sound : IsSound k t
    pub empty : t.tiered ≡ true → t.pending ≡ []
    pub in_bucket :
        (b : Bytes)
        → contains (k.hash b) t.index ≡ true
        → t.tiered ≡ true
        → contains (key (k.hash b)) t.cold ≡ true
    pub cold_grows : (p : String) → contains p s.cold ≡ true → contains p t.cold ≡ true
    pub same_hot : t.hot ≡ s.hot
    pub same_index : t.index ≡ s.index
    pub same_rooted : t.rooted ≡ s.rooted
    pub same_tiered : t.tiered ≡ s.tiered

  no_queue :
      (j : String) (q : List (String × Bytes)) (c : Bool)
      → q ≡ []
      → (c || queued k j q) ≡ true
      → c ≡ true
  no_queue j [] c e h = ground arith
  no_queue j (x ∷ q) c e h = cc

  sent_flush :
      (sent : String → Bool) (s : Cas)
      → IsSound k s
      → all_sent sent s.pending ≡ true
      → s.tiered ≡ true
      → Flushed s (record s { pending = []; cold = upload sent s.pending s.cold })
  sent_flush sent s h a t =
      let arrived : (b : Bytes)
          → contains (k.hash b) s.index ≡ true
          → contains (key (k.hash b)) (upload sent s.pending s.cold) ≡ true =
        λ b i. elim (Bool-cases (contains (key (k.hash b)) s.cold)) [
          | inl old ↦ upload_grows sent s.pending s.cold (key (k.hash b)) old
          | inr new ↦
              upload_all sent s.pending s.cold (k.hash b) a (ground (arith, h.shipped b i t))
        ] in
      record {
        sound = record {
          hot_pure = h.hot_pure;
          cold_pure = upload-IsPure sent s.pending s.cold h.queue_pure h.cold_pure;
          queue_pure = tt;
          kept = h.kept;
          shipped = λ b i _. rw (arrived b i) refl;
        };
        empty = λ _. refl;
        in_bucket = λ b i _. arrived b i;
        cold_grows = λ p i. upload_grows sent s.pending s.cold p i;
        same_hot = refl;
        same_index = refl;
        same_rooted = refl;
        same_tiered = refl;
      }

  -- nothing to flush: no bucket, or an empty queue
  idle_flush : (s : Cas) → IsSound k s → (s.tiered ≡ true → s.pending ≡ []) → Flushed s s
  idle_flush s h e = record {
    sound = h;
    empty = e;
    in_bucket = λ b i t. no_queue (k.hash b) s.pending _ (e t) (h.shipped b i t);
    cold_grows = λ p i. i;
    same_hot = refl;
    same_index = refl;
    same_rooted = refl;
    same_tiered = refl;
  }

  nil_of_is_nil : (q : List (String × Bytes)) → is_nil q ≡ true → q ≡ []
  nil_of_is_nil [] e = refl
  nil_of_is_nil (x ∷ q) e = cc

  pub flush_s3-Flushed :
      (sent : String → Bool) (s : Cas) (n : ℕ)
      → IsSound k s
      → (flush_s3 sent s).0 ≡ ok n
      → Flushed s (flush_s3 sent s).1
  unfolding flush_s3
  flush_s3-Flushed sent s n h r = elim (Bool-cases (not s.tiered || is_nil s.pending)) [
    | inl idle ↦ rw idle (idle_flush s h (λ t. nil_of_is_nil s.pending (ground arith)))
    | inr busy ↦ rw busy (sent_flush sent s h (ground arith) (ground arith))
  ]

  -- A block is in reach: in the hot cache, or in the bucket.
  abbrev pub InReach : Bytes → Cas → Type 0
  InReach b s =
      ((s.rooted ≡ true) × (contains (key (k.hash b)) s.hot ≡ true))
      ⊎ ((s.tiered ≡ true) × (contains (key (k.hash b)) s.cold ≡ true))

  -- the two ways in which `get` finds its chunk
  pub hot_hit :
      (b c : Bytes) (s : Cas)
      → k.decompress c ≡ some b
      → from_hot k (k.hash b) (some c) s ≡ (ok b, s)
  unfolding from_hot inflate
  hot_hit b c s e = rw e refl

  pub cold_hit :
      (b c : Bytes) (s : Cas)
      → k.decompress c ≡ some b
      → s.tiered ≡ true
      → lookup (key (k.hash b)) s.cold ≡ some c
      → from_hot k (k.hash b) none s
        ≡ (ok b, if s.rooted then record s { hot = insert (key (k.hash b)) c s.hot } else s)
  unfolding from_hot get_miss from_cold inflate
  cold_hit b c s e t l = rw (t, l, e) refl
