-- ===== src/Harness/Percentiles.antt =====
-- A percentile lies among the values and grows with its rank (spikes/harness/metrics.py).
use Prim.Native.Nat.{min}
use native.Mathlib.Nat.{mul-le-mul_left}
use klados.Base.{
  ℕ, zero, suc, ◌+◌, ◌-◌, ◌*◌, ◌/◌, ◌%◌, ◌≤◌, ◌<◌, ◌≡◌, refl, some, List, [], ◌∷◌, length, leb,
  ◌==◌, All, arith, inl, inr, Bool-cases,
}
use klados.Harness.Metrics.{insert, sorted, item, interpolated, percentile}

-- each item is at most the next
abbrev Rises : List ℕ → Type 0
Rises xs = (i : ℕ) → suc i < length xs → item i xs ≤ item (suc i) xs

abbrev Ordered : List ℕ → Type 0
Ordered [] = Unit
Ordered (x ∷ xs) = All (λ y. x ≤ y) xs × Ordered xs

All-insert : (P : ℕ → Type 0) (x : ℕ) (ys : List ℕ) → P x → All P ys → All P (insert x ys)
unfolding insert
All-insert P x [] p h = (p, tt)
All-insert P x (y ∷ ys) p h = elim (Bool-cases (leb x y)) [
  | inl le ↦ rw le (p, h)
  | inr gt ↦ rw gt (h.0, All-insert P x ys p h.1)
]

All-sorted : (P : ℕ → Type 0) (xs : List ℕ) → All P xs → All P (sorted xs)
unfolding sorted
All-sorted P [] h = tt
All-sorted P (x ∷ xs) h = All-insert P x (sorted xs) h.0 (All-sorted P xs h.1)

length-insert : (x : ℕ) (ys : List ℕ) → length (insert x ys) ≡ suc (length ys)
unfolding insert
length-insert x [] = refl
length-insert x (y ∷ ys) = ground (arith, length-insert x ys)

length-sorted : (xs : List ℕ) → length (sorted xs) ≡ length xs
unfolding sorted
length-sorted [] = refl
length-sorted (x ∷ xs) = omega (arith, length-insert x (sorted xs), length-sorted xs)

weaken : (x y : ℕ) (ys : List ℕ) → x ≤ y → All (λ z. y ≤ z) ys → All (λ z. x ≤ z) ys
weaken x y [] h a = tt
weaken x y (z ∷ ys) h a = (omega (arith, a.0), weaken x y ys h a.1)

insert-Ordered : (x : ℕ) (ys : List ℕ) → Ordered ys → Ordered (insert x ys)
unfolding insert
insert-Ordered x [] o = (tt, tt)
insert-Ordered x (y ∷ ys) o = elim (Bool-cases (leb x y)) [
  | inl le ↦ rw le ((ground (arith, le), weaken x y ys (ground (arith, le)) o.0), o)
  | inr gt ↦ rw gt (All-insert (λ z. y ≤ z) x ys (ground (arith, gt)) o.0, insert-Ordered x ys o.1)
]

sorted-Ordered : (xs : List ℕ) → Ordered (sorted xs)
unfolding sorted
sorted-Ordered [] = tt
sorted-Ordered (x ∷ xs) = insert-Ordered x (sorted xs) (sorted-Ordered xs)

item-All : (P : ℕ → Type 0) (i : ℕ) (xs : List ℕ) → All P xs → i < length xs → P (item i xs)
unfolding item
item-All P i [] h lt = absurd (omega arith)
item-All P zero (x ∷ xs) h lt = h.0
item-All P (suc i) (x ∷ xs) h lt = item-All P i xs h.1 (omega arith)

Ordered-Rises : (xs : List ℕ) → Ordered xs → Rises xs
unfolding item
Ordered-Rises [] o i lt = absurd (omega arith)
Ordered-Rises (x ∷ xs) o zero lt = item-All (λ y. x ≤ y) 0 xs o.0 (omega arith)
Ordered-Rises (x ∷ xs) o (suc i) lt = Ordered-Rises xs o.1 i (omega arith)

next_hundredth : (d f : ℕ) → d * f ≤ d * suc f
next_hundredth d f = mul-le-mul_left d (omega arith)

-- a hundredth more
interpolated_step :
    (xs : List ℕ) (r : ℕ)
    → Rises xs
    → r < (length xs - 1) * 100
    → interpolated xs r ≤ interpolated xs (suc r)
unfolding interpolated
interpolated_step xs r rises lt = elim (Bool-cases (r % 100 == 99)) [
  | inl last ↦
      let lo = r / 100 in
      let at : r % 100 ≡ 99 = ground (arith, last) in
      let lo' : suc r / 100 ≡ suc lo = omega arith in
      let rest : suc r % 100 ≡ 0 = omega arith in
      let hi : min (lo + 1) (length xs - 1) ≡ suc lo = omega arith in
      let up = rises lo (omega arith) in rw (at, lo', rest, hi) (omega (arith, up))
  | inr inner ↦
      let lo' : suc r / 100 ≡ r / 100 = ground (arith, inner) in
      let rest : suc r % 100 ≡ suc (r % 100) = ground (arith, inner) in
      let hi = item (min (r / 100 + 1) (length xs - 1)) xs in
      rw (lo', rest) (omega (arith, next_hundredth (hi - item (r / 100) xs) (r % 100)))
]

interpolated_grows :
    (xs : List ℕ) (r k s : ℕ)
    → Rises xs
    → r + k ≡ s
    → s ≤ (length xs - 1) * 100
    → interpolated xs r ≤ interpolated xs s
interpolated_grows xs r zero s rises e le = let same : r ≡ s = omega arith in rw same (omega arith)
interpolated_grows xs r (suc k) s rises e le = omega (
  arith,
  interpolated_step xs r rises (omega arith),
  interpolated_grows xs (suc r) k s rises (omega arith) le,
)

-- the first item and the last
interpolated_ends :
    (xs : List ℕ) (m n : ℕ)
    → All (λ x. (m ≤ x) × (x ≤ n)) xs
    → 1 ≤ length xs
    → (m * 100 ≤ interpolated xs 0) × (interpolated xs ((length xs - 1) * 100) ≤ n * 100)
unfolding interpolated
interpolated_ends xs m n h some_item =
    let last = length xs - 1 in
    let lo : last * 100 / 100 ≡ last = omega arith in
    let rest : last * 100 % 100 ≡ 0 = omega arith in
    let low = item-All (λ x. (m ≤ x) × (x ≤ n)) 0 xs h (omega arith) in
    let high = item-All (λ x. (m ≤ x) × (x ≤ n)) last xs h (omega arith) in
    (omega (arith, low.0), rw (lo, rest) (omega (arith, high.1)))

-- For p ≤ q ≤ 100 and values between m and n, one at least: the p-th percentile is between m and the
-- q-th, and that is at most n.
pub percentile_between :
    (x : ℕ) (xs : List ℕ) (m n p q : ℕ)
    → All (λ y. (m ≤ y) × (y ≤ n)) (x ∷ xs)
    → p ≤ q
    → q ≤ 100
    → (a : ℕ) × (b : ℕ) × (percentile (x ∷ xs) p ≡ some a)
      × (percentile (x ∷ xs) q ≡ some b)
      × (m * 100 ≤ a)
      × (a ≤ b)
      × (b ≤ n * 100)
unfolding percentile
percentile_between x [] m n p q h pq q100 =
    (x * 100, x * 100, refl, refl, omega (arith, h.0.0), omega arith, omega (arith, h.0.1))
percentile_between x (y ∷ ys) m n p q h pq q100 =
    let values = x ∷ y ∷ ys in
    let xs = sorted values in
    let w = length values - 1 in
    let size : length xs ≡ length values = length-sorted values in
    let rises = Ordered-Rises xs (sorted-Ordered values) in
    let (low, high) =
      interpolated_ends xs m n (All-sorted (λ y. (m ≤ y) × (y ≤ n)) values h)
        (omega (arith, size)) in
    let rank : w * p ≤ w * q = mul-le-mul_left w pq in
    let top : w * q ≤ w * 100 = mul-le-mul_left w q100 in
    let same : (length xs - 1) * 100 ≡ w * 100 = omega (arith, size) in
    let up = interpolated_grows xs 0 (w * p) (w * p) rises (omega arith) (omega arith) in
    let between =
      interpolated_grows xs (w * p) (w * q - w * p) (w * q) rises (omega arith) (omega arith) in
    let over =
      interpolated_grows xs (w * q) ((length xs - 1) * 100 - w * q) ((length xs - 1) * 100) rises
        (omega arith) (omega arith) in
    (
      interpolated xs (w * p),
      interpolated xs (w * q),
      refl,
      refl,
      omega (arith, low, up),
      between,
      omega (arith, high, over),
    )
