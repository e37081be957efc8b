-- ===== src/Tests/Codecs.antt =====
-- A digest and a compression for the tests (spikes/storage/cas.py takes both from Python's library).
use Prim.Native.Char.{Char}
use text.Mathlib.TextLemmas.{head-eq_of_cons-eq, tail-eq_of_cons-eq, nil≢cons}
use mathlib.Core.Path.{ap₂}
use klados.Base.{
  ℕ, zero, suc, String, ◌≡◌, refl, sym, ap, [], ◌∷◌, Option, none, some, ◌≟◌, true, false,
}
use klados.Codec.{Bytes, Codec}

pub tally : ℕ → String → String
tally zero s = String.◌∷◌ "b" s
tally (suc n) s = String.◌∷◌ "a" (tally n s)

-- a number for each byte, in tallies
pub encode : Bytes → String
unfolding tally
encode [] = String.[]
encode (n ∷ xs) = tally n (encode xs)

a≢b : (Path Char "a" "b") → ⊥
a≢b e = differ (ap (λ c. String.◌∷◌ c String.[] ≟ "b") e)
  where
    differ : false ≡ true → ⊥
    differ q = cc

tally_injective : (n m : ℕ) (s t : String) → tally n s ≡ tally m t → (n ≡ m) × (s ≡ t)
unfolding tally
tally_injective zero zero s t e = (refl, tail-eq_of_cons-eq e)
tally_injective zero (suc m) s t e = absurd (a≢b (sym (head-eq_of_cons-eq e)))
tally_injective (suc n) zero s t e = absurd (a≢b (head-eq_of_cons-eq e))
tally_injective (suc n) (suc m) s t e =
    let (same, rest) = tally_injective n m s t (tail-eq_of_cons-eq e) in (ap suc same, rest)

tally-nonempty : (n : ℕ) (s : String) → String.[] ≡ tally n s → ⊥
unfolding tally
tally-nonempty zero s e = nil≢cons e
tally-nonempty (suc n) s e = nil≢cons e

pub encode_injective : (xs ys : Bytes) → encode xs ≡ encode ys → xs ≡ ys
unfolding encode
encode_injective [] [] e = refl
encode_injective [] (y ∷ ys) e = absurd (tally-nonempty y (encode ys) e)
encode_injective (x ∷ xs) [] e = absurd (tally-nonempty x (encode xs) (sym e))
encode_injective (x ∷ xs) (y ∷ ys) e =
    let (same, rest) = tally_injective x y (encode xs) (encode ys) e in
    ap₂ (λ n z. n ∷ z) same (encode_injective xs ys rest)

abbrev pub digest : Bytes → String
digest xs = String.◌∷◌ "0" (String.◌∷◌ "1" (encode xs))

-- an injective digest, digests of single bytes, and a compression that only marks its output
abbrev pub codec : Codec
codec = record {
  hash = digest;
  digest8 = λ i. i ∷ [];
  compress = λ level xs. level ∷ xs;
  decompress = unmark;
  hash_injective = λ a b e. encode_injective a b (tail-eq_of_cons-eq (tail-eq_of_cons-eq e));
  hash_long = λ a. ("0", "1", encode a, refl);
  decompress-compress = λ level a. refl;
}
  where
    unmark : Bytes → Option Bytes
    unmark [] = none
    unmark (level ∷ xs) = some xs
