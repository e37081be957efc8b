-- ===== src/Harness/Lab.antt =====
-- What the experiments of spikes/harness do with `fc.Microvm`: the methods that they call, any of which
-- may raise, and what stays behind.
use klados.Base.{ℕ, zero, suc, Bool, Option, none, List, [], ◌∷◌, if◌then◌else◌}
use klados.Base.Result.{Result, ok, err, failure}
use klados.Agent.{Msg, Reply}

-- The VM "base", `f"child_{i}"` and `f"restore_{i}"`.
pub data Name : Type 0 where
  base : Name
  child restore : ℕ → Name

-- A socket file on the host: at the path in the snapshot, in the base's own directory, or in the
-- directory of a fork.
pub data Uds : Type 0 where
  baked : Uds
  of_base : Uds
  of_fork : ℕ → Uds

pub data Image : Type 0 where
  -- `base.snapshot` and `base.mem`, and those of an iteration
  base_image : Image
  image : ℕ → Image

pub data Act : Type 0 where
  -- `_spawn`, with the directory that is mounted over the baked one
  spawn : Name → Option Uds → Act
  -- `configure_and_start` and `load`, with a vsock device or without
  start : Name → Bool → Act
  load : Name → Image → Bool → Act
  pause resume kill : Name → Act
  -- `snapshot(…, diff=…)`
  snapshot : Name → Image → Bool → Act
  -- `vsock_request`
  request : Uds → Msg → Act
  -- `os.unlink`, where a missing file is passed over
  unlink : Uds → Act

-- Whether each action goes through, what a request is answered, and the host's clock.
pub record World : Type 0 where
  pub goes : ℕ → Bool
  pub replies : ℕ → Reply
  pub time : ℕ → ℕ
  -- how many rounds of a polling loop fit before its deadline
  pub rounds : ℕ → ℕ

-- What was done, the last first, and how many times the world was asked.
pub record Lab : Type 0 where
  pub trace : List Act
  pub asked : ℕ

abbrev pub Exec : Type 0 → Type 0
Exec A = Lab → Result A × Lab

unfoldable pub pure : {A : Type 0} → A → Exec A
pure a l = (ok a, l)

unfoldable pub after : {A B : Type 0} → (A → Exec B) → Result A → Exec B
after f (err e) l = (err e, l)
after f (ok a) l = f a l

infixl 10 ◌>>=◌ ◌>>◌
unfoldable pub ◌>>=◌ : {A B : Type 0} → Exec A → (A → Exec B) → Exec B
unfolding after
◌>>=◌ m f l = let (r, l') = m l in after f r l'

abbrev pub ◌>>◌ : {A B : Type 0} → Exec A → Exec B → Exec B
m >> k = m >>= λ _. k

unfoldable pub recovered : {A : Type 0} → A → Result A → Result A
recovered otherwise (err e) = ok otherwise
recovered otherwise (ok a) = ok a

module _ (w : World) where
  -- an action is attempted, and raises where it does not go through
  unfoldable pub attempt : Act → Exec (Unit {0})
  attempt a l = (
    if w.goes l.asked then ok tt else err (failure "raised"),
    record { trace = a ∷ l.trace; asked = suc l.asked },
  )

  -- `kill` and `unlink`, which pass over what they meet
  unfoldable pub always : Act → Exec (Unit {0})
  always a l = (ok tt, record l { trace = a ∷ l.trace })

  -- `vsock_request`
  unfoldable pub ask : Uds → Msg → Exec Reply
  ask uds m l = (
    if w.goes l.asked then ok (w.replies l.asked) else err (failure "vsock"),
    record { trace = request uds m ∷ l.trace; asked = suc l.asked },
  )

  unfoldable pub now : Exec ℕ
  now l = (ok (w.time l.asked), record l { asked = suc l.asked })

  unfoldable pub deadline : Exec ℕ
  deadline l = (ok (w.rounds l.asked), record l { asked = suc l.asked })

  -- `try: … except Exception: …`
  unfoldable pub caught : {A : Type 0} → Exec A → A → Exec A
  unfolding recovered
  caught m otherwise l = let (r, l') = m l in (recovered otherwise r, l')

  -- `try: … finally: …`, where what is done in the end does not raise
  unfoldable pub finally : {A : Type 0} → Exec A → Exec (Unit {0}) → Exec A
  finally m last l = let (r, l') = m l in let (_, l'') = last l' in (r, l'')

  -- `with fc.Microvm(…) as vm: …`; where `__enter__` raises there is no `__exit__`
  unfoldable pub with_vm : {A : Type 0} → Name → Exec A → Exec A
  unfolding attempt always finally ◌>>=◌
  with_vm vm body = attempt (spawn vm none) >> finally body (always (kill vm))

  -- `for i in range(…): …`, with the results in a list: `count` more, from `i` on
  unfoldable pub each : {A : Type 0} → ℕ → ℕ → (ℕ → Exec A) → Exec (List A)
  unfolding pure ◌>>=◌
  each i zero f = pure []
  each i (suc count) f = do a ← f i; more ← each (suc i) count f; pure (a ∷ more)
