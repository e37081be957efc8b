-- ===== src/Harness.antt =====
-- The test for collisions between forks that the experiments of spikes/harness make
-- (`cross_child_collisions` of spike_c.py, and `cross` of spike_g_protocol.py and
-- spike_i_concurrent.py).
pub mod Collisions
pub mod Collided
pub mod Lab
pub mod Forks
pub mod Discipline
pub mod Leads
pub mod Orderly
pub mod Siblings
pub mod Concurrent
pub mod Verdicts
pub mod Browsers
pub mod Reported
pub mod Browsed
pub mod Metrics
pub mod Percentiles
pub mod Judged
pub mod Fidelity
pub mod Measures
pub mod Alone
use klados.Base.{ℕ, Bool, true, false, ◌||◌, List, [], ◌∷◌, ◌++◌, length, leb, ◌==◌, if◌then◌else◌}

-- a child and the values that it drew
abbrev pub Drawn : Type 0
Drawn = List (ℕ × List ℕ)

-- a value and the children that drew it
abbrev pub Seen : Type 0
Seen = List (ℕ × List ℕ)

unfoldable pub among : ℕ → List ℕ → Bool
among a [] = false
among a (x ∷ xs) = x == a || among a xs

-- `seen[v].add(child)`
unfoldable pub add : ℕ → ℕ → Seen → Seen
unfolding among
add v child [] = (v, child ∷ []) ∷ []
add v child ((w, kids) ∷ seen) =
    if w == v
    then (w, if among child kids then kids else child ∷ kids) ∷ seen
    else (w, kids) ∷ add v child seen

unfoldable pub add_all : ℕ → List ℕ → Seen → Seen
unfolding add
add_all child [] seen = seen
add_all child (v ∷ values) seen = add_all child values (add v child seen)

unfoldable pub collect : Drawn → Seen → Seen
unfolding add_all
collect [] seen = seen
collect ((child, values) ∷ drawn) seen = collect drawn (add_all child values seen)

-- `if len(kids) >= 2`
unfoldable pub shared : Seen → Seen
shared [] = []
shared ((v, kids) ∷ seen) =
    let rest = shared seen in if leb 2 (length kids) then (v, kids) ∷ rest else rest

unfoldable pub cross_child_collisions : Drawn → Seen
unfolding collect shared
cross_child_collisions drawn = shared (collect drawn [])
