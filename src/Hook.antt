-- ===== src/Hook.antt =====
-- spikes/guest/sitecustomize.py in event mode: the hook that reseeds a Python process's generators
-- when the generation file has changed, and a guest in which the agent and the process take turns.
pub mod Gate
pub mod Window
pub mod Stream
pub mod Periodic
use klados.Base.{
  ℕ, ◌+◌, String, Bool, true, false, not, ◌&&◌, ◌||◌, Option, none, some, List, [], ◌∷◌, ◌++◌, ◌≟◌,
  ◌==◌, is_some, if◌then◌else◌,
}
use klados.Agent.{Content, blank, numeral, other, Guest, Msg, Reply, handle}

-- A generator: the seed that it was given last, how many values it has given since, and what it had
-- before where the seed was mixed into it: the earlier seeds, with the values that were given after each.
-- What it gives is a function of these.
pub record Rng : Type 0 where
  pub seed : ℕ
  pub drawn : ℕ
  pub earlier : List (ℕ × ℕ)

pub data Generator : Type 0 where
  random openssl : Generator

-- `_state["gen"]`, the two generators that the hook guards, and the wrapped call that has made its check
-- and not yet drawn. Calls of several threads at a time are not modelled.
pub record Proc : Type 0 where
  pub gen : Option Content
  pub random : Rng
  pub openssl : Rng
  pub call : Option Generator

-- what the two calls of `os.urandom` in `_reseed` would give
abbrev pub Fresh : Type 0
Fresh = ℕ × ℕ

-- equality of stripped texts
same_text : Content → Content → Bool
same_text blank blank = true
same_text (numeral a) (numeral b) = a == b
same_text (other s) (other t) = s ≟ t
same_text _ _ = false

-- `g != _state["gen"]`, for `g` a text
differs : Content → Option Content → Bool
unfolding same_text
differs g none = true
differs g (some s) = not (same_text g s)

-- `random.seed`
seed_with : ℕ → Rng → Rng
seed_with a r = record { seed = a; drawn = 0; earlier = [] }

-- `ssl.RAND_add`: mixed into the state that is there
rand_add : ℕ → Rng → Rng
rand_add b r = record { seed = b; drawn = 0; earlier = (r.seed, r.drawn) ∷ r.earlier }

-- `_reseed`
pub reseed : Fresh → Proc → Proc
unfolding seed_with rand_add
reseed (a, b) p = record p { random = seed_with a p.random; openssl = rand_add b p.openssl }

-- `_maybe_reseed`, on what `_read_gen` returns; the first generation that is seen is a baseline
unfoldable pub maybe_reseed : Option Content → Fresh → Proc → Proc
unfolding reseed differs
maybe_reseed none fresh p = p
maybe_reseed (some g) fresh p =
    if differs g p.gen
    then record (if is_some p.gen then reseed fresh p else p) { gen = some g }
    else p

-- `_start` in event mode
unfoldable pub start_hook : Option Content → Proc → Proc
start_hook file p = record p { gen = file }

unfoldable pub next : Rng → Rng
next r = record r { drawn = r.drawn + 1 }

-- The wrappers of `getrandbits`, `random` and of `RAND_bytes`, up to the return of `_maybe_reseed()`
unfoldable pub enter : Generator → Option Content → Fresh → Proc → Proc
unfolding maybe_reseed
enter g file fresh p = record (maybe_reseed file fresh p) { call = some g }

-- and from there: the original is called, if a call is under way.
unfoldable pub draw : Option Generator → Proc → List Rng × Proc
unfolding next
draw none p = ([], p)
draw (some random) p = (p.random ∷ [], record p { random = next p.random; call = none })
draw (some openssl) p = (p.openssl ∷ [], record p { openssl = next p.openssl; call = none })

-- A guest and the process of its workload, which the agent has started and sends its signals to.
pub record World : Type 0 where
  pub guest : Guest
  pub proc : Proc

-- What can happen: a message to the agent, a wrapped call's check, the draw after it, a round of
-- `_backup_poller`. The numbers are what `os.urandom` would give at that moment.
pub data Event : Type 0 where
  message : Msg → Event
  checking : Generator → Fresh → Event
  drawing : Event
  polling : Fresh → Event

-- A stopped process does nothing, and a call does not begin within a call.
unfoldable pub step : Event → World → List Rng × World
unfolding handle enter draw
step (message m) w = ([], record w { guest = (handle m w.guest).1 })
step (checking g fresh) w =
    if w.guest.stopped || is_some w.proc.call
    then ([], w)
    else ([], record w { proc = enter g w.guest.forkgen fresh w.proc })
step drawing w =
    if w.guest.stopped
    then ([], w)
    else let (out, p) = draw w.proc.call w.proc in (out, record w { proc = p })
step (polling fresh) w =
    if w.guest.stopped
    then ([], w)
    else ([], record w { proc = maybe_reseed w.guest.forkgen fresh w.proc })

-- the values drawn, in order, and the world at the end
unfoldable pub run : List Event → World → List Rng × World
unfolding step
run [] w = ([], w)
run (e ∷ events) w =
    let (out, w') = step e w in let (rest, w'') = run events w' in (out ++ rest, w'')

-- the seeds that the kernel offers along the events
unfoldable pub kernel_seeds : List Event → List ℕ
kernel_seeds [] = []
kernel_seeds (message m ∷ events) = kernel_seeds events
kernel_seeds (checking g (a, b) ∷ events) = a ∷ b ∷ kernel_seeds events
kernel_seeds (drawing ∷ events) = kernel_seeds events
kernel_seeds (polling (a, b) ∷ events) = a ∷ b ∷ kernel_seeds events
