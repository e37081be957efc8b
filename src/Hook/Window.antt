-- ===== src/Hook/Window.antt =====
-- The zero-window property: nothing that a process draws after a fork comes from a generator state
-- that the snapshot froze.
use mathlib.Core.Path.{subst}
use klados.Base.{ℕ, ◌≢◌, sym, List, [], ◌∷◌, All}
use klados.Hook.{Rng, Event, message, checking, drawing, polling}
use klados.Hook.Gate.{Among, SeededFrom, Gate, OffersFrom}

module _ (seeds : List ℕ) where
  -- the seeds that an event offers are of `seeds`
  abbrev Offers : Event → Type 0
  Offers (message m) = Unit
  Offers (checking g fresh) = OffersFrom seeds fresh
  Offers drawing = Unit
  Offers (polling fresh) = OffersFrom seeds fresh

-- No number is in both lists.
abbrev pub Disjoint : List ℕ → List ℕ → Type 0
Disjoint xs ys = (a : ℕ) → Among a xs → Among a ys → ⊥

apart :
    (xs ys : List ℕ) (r : Rng) (out : List Rng)
    → Disjoint xs ys
    → SeededFrom xs r
    → All (SeededFrom ys) out
    → All (λ q. r ≢ q) out
apart xs ys r [] d i h = tt
apart xs ys r (q ∷ out) d i (here, there) = (
  λ e. d r.seed i (subst (λ (z : Rng). Among z.seed ys) (sym e) here),
  apart xs ys r out d i there,
)

pub each_apart :
    (xs ys : List ℕ) (out out' : List Rng)
    → Disjoint xs ys
    → All (SeededFrom xs) out
    → All (SeededFrom ys) out'
    → All (λ r. All (λ q. r ≢ q) out') out
each_apart xs ys [] out' d h h' = tt
each_apart xs ys (r ∷ out) out' d (here, there) h' =
    (apart xs ys r out' d here h', each_apart xs ys out out' d there h')
