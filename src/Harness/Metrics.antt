-- ===== src/Harness/Metrics.antt =====
-- spikes/harness/metrics.py: percentiles, their summary, and the memory of a process. Values are whole
-- numbers of one unit and percentiles hundredths of it; rounding is left out.
use klados.Base.{
  ℕ, zero, suc, ◌+◌, ◌-◌, ◌*◌, ◌/◌, ◌%◌, String, Option, none, some, List, [], ◌∷◌, length, leb,
  ◌≟◌, if◌then◌else◌,
}
use Prim.Native.Nat.{min}

unfoldable pub insert : ℕ → List ℕ → List ℕ
insert x [] = x ∷ []
insert x (y ∷ ys) = if leb x y then x ∷ y ∷ ys else y ∷ insert x ys

-- `sorted(values)`
unfoldable pub sorted : List ℕ → List ℕ
unfolding insert
sorted [] = []
sorted (x ∷ xs) = insert x (sorted xs)

-- `xs[i]`, in range
unfoldable pub item : ℕ → List ℕ → ℕ
item i [] = 0
item zero (x ∷ xs) = x
item (suc i) (x ∷ xs) = item i xs

-- `xs[lo] + (xs[hi] - xs[lo]) * (k - lo)` in hundredths, where `k` is `rank / 100`
unfoldable pub interpolated : List ℕ → ℕ → ℕ
unfolding item
interpolated xs rank =
    let lo = rank / 100 in
    let hi = min (lo + 1) (length xs - 1) in
    item lo xs * 100 + (item hi xs - item lo xs) * (rank % 100)

-- `percentile(values, p)` in hundredths; none is not a number
unfoldable pub percentile : List ℕ → ℕ → Option ℕ
unfolding sorted interpolated
percentile [] p = none
percentile (x ∷ []) p = some (x * 100)
percentile (x ∷ y ∷ xs) p =
    some (interpolated (sorted (x ∷ y ∷ xs)) ((length (x ∷ y ∷ xs) - 1) * p))

abbrev minimum : ℕ → List ℕ → ℕ
minimum m [] = m
minimum m (x ∷ xs) = minimum (min m x) xs

abbrev maximum : ℕ → List ℕ → ℕ
maximum m [] = m
maximum m (x ∷ xs) = maximum (if leb m x then x else m) xs

unfoldable pub total : List ℕ → ℕ
total [] = 0
total (x ∷ xs) = x + total xs

-- `summary(values)`: n, min, p50, p99, max and mean, the last four in hundredths
pub record Summary : Type 0 where
  pub n : ℕ
  pub least : Option ℕ
  pub p50 : Option ℕ
  pub p99 : Option ℕ
  pub most : Option ℕ
  pub mean : Option ℕ

unfoldable pub summary : List ℕ → Summary
unfolding percentile total
summary [] = record { n = 0; least = none; p50 = none; p99 = none; most = none; mean = none }
summary (x ∷ xs) = record {
  n = length (x ∷ xs);
  least = some (minimum x xs);
  p50 = percentile (x ∷ xs) 50;
  p99 = percentile (x ∷ xs) 99;
  most = some (maximum x xs);
  mean = some (total (x ∷ xs) * 100 / length (x ∷ xs));
}

-- the number of the first line that begins with a key
unfoldable pub field : String → List (String × ℕ) → Option ℕ
field key [] = none
field key ((k, v) ∷ lines) = if k ≟ key then some v else field key lines

abbrev or_else : Option ℕ → ℕ → ℕ
or_else none n = n
or_else (some v) n = v

abbrev lines_of : Option (List (String × ℕ)) → List (String × ℕ)
lines_of none = []
lines_of (some lines) = lines

-- `pss_kib`, on the lines of smaps_rollup and of status, none where the file cannot be read
unfoldable pub pss_kib : Option (List (String × ℕ)) → Option (List (String × ℕ)) → ℕ
unfolding field
pss_kib rollup status =
    or_else (field "Pss:" (lines_of rollup)) (or_else (field "VmRSS:" (lines_of status)) 0)
