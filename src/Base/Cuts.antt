-- ===== src/Base/Cuts.antt =====
-- A list cut at a place that lies in, or at the end of, the first of two parts.
use Prim.Native.Nat.{ℕ, zero, suc, ◌+◌, ◌≤◌}
use mathlib.Core.Path.{◌≡◌, refl, ap}
use mathlib.Core.List.{List, [], ◌∷◌, ◌++◌}
use native.Mathlib.Omega.{arith}
use klados.Base.Lists.{length, take, drop}

module _ {ℓ} {A : Type ℓ} where
  pub take-append_late :
      (k n : ℕ) (xs ys : List A) → length xs + k ≡ n → take n (xs ++ ys) ≡ xs ++ take k ys
  take-append_late k n [] ys e = let same : n ≡ k = omega arith in rw same
  take-append_late k zero (x ∷ xs) ys e = absurd (omega arith)
  take-append_late k (suc n) (x ∷ xs) ys e = ap (◌∷◌ x) (take-append_late k n xs ys (omega arith))

  pub drop-append_late :
      (k n : ℕ) (xs ys : List A) → length xs + k ≡ n → drop n (xs ++ ys) ≡ drop k ys
  drop-append_late k n [] ys e = let same : n ≡ k = omega arith in rw same
  drop-append_late k zero (x ∷ xs) ys e = absurd (omega arith)
  drop-append_late k (suc n) (x ∷ xs) ys e = drop-append_late k n xs ys (omega arith)

  pub take-append_early : (n : ℕ) (xs ys : List A) → n ≤ length xs → take n (xs ++ ys) ≡ take n xs
  take-append_early zero xs ys h = refl
  take-append_early (suc n) [] ys h = absurd (omega arith)
  take-append_early (suc n) (x ∷ xs) ys h = ap (◌∷◌ x) (take-append_early n xs ys (omega arith))

  pub drop-append_early :
      (n : ℕ) (xs ys : List A) → n ≤ length xs → drop n (xs ++ ys) ≡ drop n xs ++ ys
  drop-append_early zero xs ys h = refl
  drop-append_early (suc n) [] ys h = absurd (omega arith)
  drop-append_early (suc n) (x ∷ xs) ys h = drop-append_early n xs ys (omega arith)

  pub take_exact : (n : ℕ) (xs ys : List A) → length xs ≡ n → take n (xs ++ ys) ≡ xs
  take_exact zero [] ys e = refl
  take_exact zero (x ∷ xs) ys e = absurd (omega arith)
  take_exact (suc n) [] ys e = absurd (omega arith)
  take_exact (suc n) (x ∷ xs) ys e = ap (◌∷◌ x) (take_exact n xs ys (omega arith))

  pub drop_exact : (n : ℕ) (xs ys : List A) → length xs ≡ n → drop n (xs ++ ys) ≡ ys
  drop_exact zero [] ys e = refl
  drop_exact zero (x ∷ xs) ys e = absurd (omega arith)
  drop_exact (suc n) [] ys e = absurd (omega arith)
  drop_exact (suc n) (x ∷ xs) ys e = drop_exact n xs ys (omega arith)
