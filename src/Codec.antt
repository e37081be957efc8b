-- ===== src/Codec.antt =====
-- What spikes/storage/cas.py takes from hashlib and zlib: a digest and a compression, with the
-- behaviour that the store relies on.
use klados.Base.{ℕ, String, ◌≡◌, Option, some, List}
use Prim.Native.Char.{Char}

-- Bytes are numbers below 256.
abbrev pub Bytes : Type 0
Bytes = List ℕ

pub record Codec : Type 0 where
  -- `hashlib.blake2b(blk, digest_size=16).hexdigest()`
  pub hash : Bytes → String
  -- `hashlib.blake2b(bytes([i]), digest_size=8).digest()`
  pub digest8 : ℕ → Bytes
  -- `zlib.compress(blk, level)`
  pub compress : ℕ → Bytes → Bytes
  -- `zlib.decompress`; `none` is `zlib.error`
  pub decompress : Bytes → Option Bytes
  -- no two blocks that the store meets have one digest
  pub hash_injective : (a b : Bytes) → hash a ≡ hash b → a ≡ b
  -- a digest has two characters at least (it has 32)
  pub hash_long :
      (a : Bytes) → (c d : Char) × (r : String) × (hash a ≡ String.◌∷◌ c (String.◌∷◌ d r))
  pub decompress-compress : (level : ℕ) (a : Bytes) → decompress (compress level a) ≡ some a
