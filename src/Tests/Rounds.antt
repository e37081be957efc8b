-- ===== src/Tests/Rounds.antt =====
-- Examples of the hook's periodic mode (spikes/guest/sitecustomize.py).
use klados.Base.{◌≡◌, ◌≢◌, refl, inl, inr, none, List, [], ◌∷◌, ◌++◌, length, All}
use klados.Hook.{Rng, Proc, Generator, random, openssl}
use klados.Hook.Window.{Disjoint}
use klados.Hook.Periodic.{Turn, drawing, rekeying, play_all, early, round_seeds, window_bounded}

abbrev proc : Proc
proc = record {
  gen = none;
  random = record { seed = 1; drawn = 40; earlier = [] };
  openssl = record { seed = 2; drawn = 7; earlier = [] };
  call = none;
}

abbrev first_draws : List Generator
first_draws = random ∷ openssl ∷ []

abbrev one_more : List Turn
one_more = drawing random ∷ []

one_child :
    play_all (early first_draws (rekeying (11, 12) ∷ one_more)) proc
    ≡ record { seed = 1; drawn = 40; earlier = [] }
      ∷ record { seed = 2; drawn = 7; earlier = [] }
      ∷ record { seed = 11; drawn = 0; earlier = [] }
      ∷ []
unfolding play_all
one_child = refl

rounds_differ :
    Disjoint
      (round_seeds (rekeying (11, 12) ∷ one_more))
      (round_seeds (rekeying (21, 22) ∷ one_more))
rounds_differ a (inl e) (inl f) = cc
rounds_differ a (inl e) (inr (inl f)) = cc
rounds_differ a (inl e) (inr (inr f)) = elim f [ ]
rounds_differ a (inr (inl e)) (inl f) = cc
rounds_differ a (inr (inl e)) (inr (inl f)) = cc
rounds_differ a (inr (inl e)) (inr (inr f)) = elim f [ ]
rounds_differ a (inr (inr e)) _ = elim e [ ]

window_bounded_example :
    (same : List Rng) × (new : List Rng) × (new' : List Rng) × (length same ≡ length first_draws)
    × (play_all (early first_draws (rekeying (11, 12) ∷ one_more)) proc ≡ same ++ new)
    × (play_all (early first_draws (rekeying (21, 22) ∷ one_more)) proc ≡ same ++ new')
    × All (λ r. All (λ q. r ≢ q) new') new
window_bounded_example =
    window_bounded proc first_draws (11, 12) (21, 22) one_more one_more rounds_differ
