-- ===== src/Hook/Stream.antt =====
-- Between forks the hook of spikes/guest/sitecustomize.py leaves the generators alone.
use klados.Base.{ℕ, ◌+◌, ◌≡◌, false, none, some, List, [], ◌∷◌}
use klados.Agent.{numeral}
use klados.Hook.{Rng, Generator, random, Fresh, World, Event, checking, drawing}

-- calls of one generator, with what the kernel would offer at each check
abbrev pub drawings : Generator → List Fresh → List Event
drawings g [] = []
drawings g (fresh ∷ rest) = checking g fresh ∷ drawing ∷ drawings g rest

-- the values of a generator from the n-th on, one for each item of the list
abbrev pub stream : ℕ → ℕ → List Fresh → List Rng
stream seed n [] = []
stream seed n (fresh ∷ rest) =
    record { seed = seed; drawn = n; earlier = [] } ∷ stream seed (n + 1) rest

-- a running process that has seen the generation of the file, outside of any call, and whose `random`
-- was seeded
record IsSteady (w : World) (file : ℕ) : Type 0 where
  running : w.guest.stopped ≡ false
  on_file : w.guest.forkgen ≡ some (numeral file)
  in_proc : w.proc.gen ≡ some (numeral file)
  idle : w.proc.call ≡ none
  plain : w.proc.random.earlier ≡ []
