-- ===== src/Tests/Buckets.antt =====
-- An example of uploads to a server that keeps objects (spikes/storage/s3.py).
use Prim.Native.String.{◌++◌ as ◌<>◌}
use klados.Base.{ℕ, String, Bool, not, Option, none, some, List, [], ◌∷◌, ◌≟◌, if◌then◌else◌}
use klados.Base.Dict.{Dict, lookup, insert}
use klados.Codec.{Bytes}
use klados.S3.{Crypto, Client, Stamp, Headers}
use klados.S3.Bucket.{reaches}

abbrev crypto : Crypto
crypto = record {
  sha256_hex = λ b. "00";
  encode = λ s. [];
  hmac_sha256 = λ k m. m;
  hmac_sha256_hex = λ k m. m;
}

abbrev client : Client
client = record { host = "127.0.0.1:9000"; access = "a"; secret = "s"; region = "r" }

abbrev stamp : ℕ → Stamp
stamp n = record { amzdate = "20260101T000000Z"; datestamp = "20260101" }

-- the name of an object in the bucket "b"
abbrev name_of : String → String
name_of (String.◌∷◌ a (String.◌∷◌ b (String.◌∷◌ c name))) = name
name_of other = ""

abbrev accepts : String → Bool
accepts name = not (name ≟ "ff/ff0")

abbrev get_answer : Option Bytes → ℕ × Bytes
get_answer none = (404, [])
get_answer (some body) = (200, body)

abbrev server : String → String → Headers → Bytes → Dict Bytes → (ℕ × Bytes) × Dict Bytes
server method uri hd body s =
    if method ≟ "PUT"
    then if accepts (name_of uri) then ((200, []), insert (name_of uri) body s) else ((503, []), s)
    else (get_answer (lookup (name_of uri) s), s)

abbrev pending : List (String × Bytes)
pending = ("ab1", 1 ∷ 2 ∷ []) ∷ ("ff0", 3 ∷ []) ∷ ("cd2", 4 ∷ []) ∷ []

-- the last upload had begun when the second failed
abbrev begun : String → Bool
begun h = h ≟ "cd2"

abbrev accepted : String → Bool
accepted = reaches crypto client server "b" (λ s. s) accepts
