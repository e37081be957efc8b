-- ===== src/Hook/Gate.antt =====
-- The invariant of a guest between a snapshot and its children's draws (spikes/guest/sitecustomize.py,
-- spikes/guest/guest_agent.py), and what a check of the hook does to it.
use klados.Base.{
  ℕ, ◌≤◌, ◌<◌, ◌≡◌, refl, ap, ◌∙◌, ◌⊎◌, inl, inr, true, false, none, some, List, [], ◌∷◌, arith,
  All, if◌then◌else◌, Bool-cases, ◌==◌,
}
use klados.Agent.{numeral}
use klados.Hook.{
  Rng, Proc, Generator, random, openssl, Fresh, World, checking, drawing, polling, maybe_reseed,
  reseed, next, step,
}

-- `a` is one of the list.
abbrev pub Among : ℕ → List ℕ → Type 0
Among a [] = ⊥
Among a (x ∷ xs) = (a ≡ x) ⊎ Among a xs

abbrev pub SeededFrom : List ℕ → Rng → Type 0
SeededFrom seeds r = Among r.seed seeds

-- Why no frozen value can be drawn: the workload is stopped, or the next draw reseeds (the file's
-- generation is above the one that the process has seen), or the seeds are new.
pub data Gate (seeds : List ℕ) (w : World) (seen file : ℕ) : Type 0 where
  closed : w.guest.stopped ≡ true → Gate seeds w seen file
  due : seen < file → Gate seeds w seen file
  reseeded :
      SeededFrom seeds w.proc.random → SeededFrom seeds w.proc.openssl → Gate seeds w seen file

-- The process and the file both show a generation, the process none that is newer.
pub record IsSynced (w : World) (seen file : ℕ) : Type 0 where
  pub on_file : w.guest.forkgen ≡ some (numeral file)
  pub in_proc : w.proc.gen ≡ some (numeral seen)
  pub order : seen ≤ file

-- Both generators have a seed of the list.
abbrev pub BothSeeded : List ℕ → Proc → Type 0
BothSeeded seeds p = SeededFrom seeds p.random × SeededFrom seeds p.openssl

pub record IsSafe (seeds : List ℕ) (w : World) : Type 0 where
  pub seen : ℕ
  pub file : ℕ
  pub synced : IsSynced w seen file
  pub gate : Gate seeds w seen file
  -- a call that has made its check draws from a new seed, stopped in between or not
  pub pending : (w.proc.call ≡ none) ⊎ BothSeeded seeds w.proc

-- `_maybe_reseed` where both show a generation
pub reseed_synced :
    (seen file : ℕ) (fresh : Fresh) (p : Proc)
    → p.gen ≡ some (numeral seen)
    → maybe_reseed (some (numeral file)) fresh p
      ≡ (if seen == file then p else record (reseed fresh p) { gen = some (numeral file) })
unfolding maybe_reseed
reseed_synced seen file fresh p e = ground arith

-- a process that has caught up with the file
pub record CaughtUp (seeds : List ℕ) (file : ℕ) (p : Proc) : Type 0 where
  pub in_proc : p.gen ≡ some (numeral file)
  pub random_seed : SeededFrom seeds p.random
  pub openssl_seed : SeededFrom seeds p.openssl

abbrev pub Steps : List ℕ → List Rng × World → Type 0
Steps seeds (out, w) = All (SeededFrom seeds) out × IsSafe seeds w

-- The kernel offers seeds of the list.
abbrev pub OffersFrom : List ℕ → Fresh → Type 0
OffersFrom seeds (a, b) = Among a seeds × Among b seeds

module _ (seeds : List ℕ) (fresh : Fresh) (offered : OffersFrom seeds fresh) where
  checked_due :
      (seen file : ℕ) (p : Proc)
      → p.gen ≡ some (numeral seen)
      → seen < file
      → CaughtUp seeds file (maybe_reseed (some (numeral file)) fresh p)
  unfolding reseed
  checked_due seen file p e lt =
      let other : (seen == file) ≡ false = ground arith in
      rw (reseed_synced seen file fresh p e, other)
        (record { in_proc = refl; random_seed = offered.0; openssl_seed = offered.1 })

  checked_new :
      (seen file : ℕ) (p : Proc)
      → p.gen ≡ some (numeral seen)
      → SeededFrom seeds p.random
      → SeededFrom seeds p.openssl
      → CaughtUp seeds file (maybe_reseed (some (numeral file)) fresh p)
  unfolding reseed
  checked_new seen file p e r o =
      rw (reseed_synced seen file fresh p e) (elim (Bool-cases (seen == file)) [
        | inl same ↦ rw same (record {
          in_proc = e ∙ ap (λ n. some (numeral n)) (ground arith);
          random_seed = r;
          openssl_seed = o;
        })
        | inr other ↦
            rw other (record { in_proc = refl; random_seed = offered.0; openssl_seed = offered.1 })
      ])

  -- after the check of a running process both generators have new seeds
  pub checked :
      (w : World) (seen file : ℕ)
      → w.guest.stopped ≡ false
      → IsSynced w seen file
      → Gate seeds w seen file
      → CaughtUp seeds file (maybe_reseed w.guest.forkgen fresh w.proc)
  checked w seen file runs s (closed stopped) = cc
  checked w seen file runs s (due lt) = rw s.on_file (checked_due seen file w.proc s.in_proc lt)
  checked w seen file runs s (reseeded r o) =
      rw s.on_file (checked_new seen file w.proc s.in_proc r o)

  -- a wrapped call begins
  pub entered :
      (g : Generator) (w : World) (file : ℕ)
      → w.guest.stopped ≡ false
      → w.proc.call ≡ none
      → w.guest.forkgen ≡ some (numeral file)
      → CaughtUp seeds file (maybe_reseed w.guest.forkgen fresh w.proc)
      → Steps seeds (step (checking g fresh) w)
  unfolding step
  entered g w file runs idle f c =
      simp (runs, idle)
        (
          tt,
          record {
            seen = file;
            file = file;
            synced = record { on_file = f; in_proc = c.in_proc; order = omega arith };
            gate = reseeded c.random_seed c.openssl_seed;
            pending = inr (c.random_seed, c.openssl_seed);
          },
        )

  pub polled :
      (w : World) (file : ℕ)
      → w.guest.stopped ≡ false
      → w.guest.forkgen ≡ some (numeral file)
      → CaughtUp seeds file (maybe_reseed w.guest.forkgen fresh w.proc)
      → Steps seeds (step (polling fresh) w)
  unfolding step
  polled w file runs f c = simp runs (
    tt,
    record {
      seen = file;
      file = file;
      synced = record { on_file = f; in_proc = c.in_proc; order = omega arith };
      gate = reseeded c.random_seed c.openssl_seed;
      pending = inr (c.random_seed, c.openssl_seed);
    },
  )

module _ (seeds : List ℕ) where
  -- A draw leaves the seeds, and so the gate.
  same_seeds :
      (w w' : World) (seen file : ℕ)
      → w.guest.stopped ≡ false
      → w'.proc.random.seed ≡ w.proc.random.seed
      → w'.proc.openssl.seed ≡ w.proc.openssl.seed
      → Gate seeds w seen file
      → Gate seeds w' seen file
  same_seeds w w' seen file runs r o (closed off) = cc
  same_seeds w w' seen file runs r o (due lt) = due lt
  same_seeds w w' seen file runs r o (reseeded a b) = reseeded (rw r a) (rw o b)

  -- a draw of a running process whose call has made its check
  pub drawn :
      (g : Generator) (w : World)
      → w.guest.stopped ≡ false
      → w.proc.call ≡ some g
      → IsSafe seeds w
      → BothSeeded seeds w.proc
      → Steps seeds (step drawing w)
  unfolding step next
  drawn random w runs busy s b =
      simp (runs, busy)
        (
          (b.0, tt),
          record {
            seen = s.seen;
            file = s.file;
            synced = record {
              on_file = s.synced.on_file;
              in_proc = s.synced.in_proc;
              order = s.synced.order;
            };
            gate = same_seeds w _ s.seen s.file runs refl refl s.gate;
            pending = inl refl;
          },
        )
  drawn openssl w runs busy s b =
      simp (runs, busy)
        (
          (b.1, tt),
          record {
            seen = s.seen;
            file = s.file;
            synced = record {
              on_file = s.synced.on_file;
              in_proc = s.synced.in_proc;
              order = s.synced.order;
            };
            gate = same_seeds w _ s.seen s.file runs refl refl s.gate;
            pending = inl refl;
          },
        )
