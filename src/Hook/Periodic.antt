-- ===== src/Hook/Periodic.antt =====
-- spikes/guest/sitecustomize.py in periodic mode: no generation is read, and a thread reseeds again
-- and again.
use klados.Base.{
  ℕ, suc, ◌≡◌, ◌≢◌, refl, ap, inl, inr, String, Option, none, some, List, [], ◌∷◌, ◌++◌, length,
  All, ◌≟◌, if◌then◌else◌,
}
use klados.Hook.{Rng, Proc, Generator, random, openssl, Fresh, next, reseed}
use klados.Hook.Gate.{Among, SeededFrom}
use klados.Hook.Window.{Disjoint, each_apart}

-- What `_start` sets up: the wrappers and the poller, the thread of `_periodic`, or nothing.
pub data Mode : Type 0 where
  event periodic off : Mode

-- from `KLADOS_RESEED`
unfoldable pub mode : Option String → Mode
mode none = periodic
mode (some m) = if m ≟ "event" then event else if m ≟ "periodic" then periodic else off

-- What happens to a process: a draw from a generator without the wrappers, or a round of `_periodic`,
-- with what `os.urandom` gives.
pub data Turn : Type 0 where
  drawing : Generator → Turn
  rekeying : Fresh → Turn

unfoldable pub play : Turn → Proc → List Rng × Proc
unfolding next reseed
play (drawing random) p = (p.random ∷ [], record p { random = next p.random })
play (drawing openssl) p = (p.openssl ∷ [], record p { openssl = next p.openssl })
play (rekeying fresh) p = ([], reseed fresh p)

-- the values drawn, in order
unfoldable pub play_all : List Turn → Proc → List Rng
unfolding play
play_all [] p = []
play_all (t ∷ turns) p = let (out, p') = play t p in out ++ play_all turns p'

-- the seeds of the rounds
abbrev pub round_seeds : List Turn → List ℕ
round_seeds [] = []
round_seeds (drawing g ∷ turns) = round_seeds turns
round_seeds (rekeying (a, b) ∷ turns) = a ∷ b ∷ round_seeds turns

-- draws before the first round
abbrev pub early : List Generator → List Turn → List Turn
early [] turns = turns
early (g ∷ gs) turns = drawing g ∷ early gs turns

abbrev after_draw : Generator → Proc → Proc
after_draw random p = record p { random = next p.random }
after_draw openssl p = record p { openssl = next p.openssl }

after_early : List Generator → Proc → Proc
after_early [] p = p
after_early (g ∷ gs) p = after_early gs (after_draw g p)

play_all-early :
    (gs : List Generator) (turns : List Turn) (p : Proc)
    → play_all (early gs turns) p ≡ play_all (early gs []) p ++ play_all turns (after_early gs p)
unfolding play_all after_early
play_all-early [] turns p = refl
play_all-early (random ∷ gs) turns p =
    ap (λ out. p.random ∷ out) (play_all-early gs turns (after_draw random p))
play_all-early (openssl ∷ gs) turns p =
    ap (λ out. p.openssl ∷ out) (play_all-early gs turns (after_draw openssl p))

length-play_all : (gs : List Generator) (p : Proc) → length (play_all (early gs []) p) ≡ length gs
unfolding play_all
length-play_all [] p = refl
length-play_all (random ∷ gs) p = ap suc (length-play_all gs (after_draw random p))
length-play_all (openssl ∷ gs) p = ap suc (length-play_all gs (after_draw openssl p))

-- Once the generators have seeds of the list, so have all values drawn.
seeded :
    (seeds : List ℕ) (turns : List Turn) (p : Proc)
    → ((a : ℕ) → Among a (round_seeds turns) → Among a seeds)
    → SeededFrom seeds p.random
    → SeededFrom seeds p.openssl
    → All (SeededFrom seeds) (play_all turns p)
unfolding play_all
seeded seeds [] p h r o = tt
seeded seeds (drawing random ∷ turns) p h r o = (r, seeded seeds turns (after_draw random p) h r o)
seeded seeds (drawing openssl ∷ turns) p h r o =
    (o, seeded seeds turns (after_draw openssl p) h r o)
seeded seeds (rekeying (a, b) ∷ turns) p h r o =
    seeded seeds turns (reseed (a, b) p) (λ c i. h c (inr (inr i))) (h a (inl refl))
      (h b (inr (inl refl)))

rekeyed :
    (fresh : Fresh) (later : List Turn) (p : Proc)
    → All (SeededFrom (round_seeds (rekeying fresh ∷ later))) (play_all (rekeying fresh ∷ later) p)
unfolding play_all
rekeyed (a, b) later p =
    seeded (a ∷ b ∷ round_seeds later) later (reseed (a, b) p) (λ c i. inr (inr i)) (inl refl)
      (inr (inl refl))

-- Two children of one snapshot in periodic mode that draw in the same order until their first round,
-- if no seed of one is a seed of the other: until then each value of one is the other's value too, and
-- after it no generator state of one is one of the other.
pub window_bounded :
    (p : Proc) (gs : List Generator) (fresh fresh' : Fresh) (later later' : List Turn)
    → Disjoint (round_seeds (rekeying fresh ∷ later)) (round_seeds (rekeying fresh' ∷ later'))
    → (same : List Rng) × (new : List Rng) × (new' : List Rng) × (length same ≡ length gs)
      × (play_all (early gs (rekeying fresh ∷ later)) p ≡ same ++ new)
      × (play_all (early gs (rekeying fresh' ∷ later')) p ≡ same ++ new')
      × All (λ r. All (λ q. r ≢ q) new') new
window_bounded p gs fresh fresh' later later' apart =
    let p' = after_early gs p in
    let new = play_all (rekeying fresh ∷ later) p' in
    let new' = play_all (rekeying fresh' ∷ later') p' in
    (
      play_all (early gs []) p,
      new,
      new',
      length-play_all gs p,
      play_all-early gs (rekeying fresh ∷ later) p,
      play_all-early gs (rekeying fresh' ∷ later') p,
      each_apart (round_seeds (rekeying fresh ∷ later)) (round_seeds (rekeying fresh' ∷ later')) new
          new' apart (rekeyed fresh later p') (rekeyed fresh' later' p'),
    )
