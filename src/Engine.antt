-- ===== src/Engine.antt =====
-- The engine daemon, spikes/engine/kladosd.py: its state, and what it takes from outside.
pub mod Logic
pub mod Machines
pub mod Untouched
pub mod Goes
pub mod Forking
pub mod Taking
pub mod Moves
pub mod Runs
pub mod Accounts
pub mod Startup
pub mod Reports
pub mod Metering
pub mod Diff
use Prim.Native.String.{◌++◌ as ◌<>◌}
use klados.Base.{
  ℕ, zero, suc, ◌+◌, ◌≡◌, String, Bool, true, false, Option, none, some, List, [], ◌∷◌, ◌++◌,
  if◌then◌else◌,
}
use klados.Base.Dict.{Dict, lookup, insert}
use klados.Base.Result.{Result, ok, err, Error, failure, key_error}
use klados.Codec.{Bytes, Codec}
use klados.Cas.{Cas}
use klados.Memory.{MemFiles}
use klados.Agent.{Guest, Reply}
use klados.Schema.{Db}

-- A regular file of a disk layer: its size and digest, or none where it cannot be read.
abbrev pub Files : Type 0
Files = Dict (Option (ℕ × String))

-- A snapshot's directory: memory image, `vmstate`'s size, sealed disk layer.
pub record SnapDir : Type 0 where
  pub files : MemFiles
  pub vmstate : Option ℕ
  pub scratch : Option Files

-- A live microVM.
pub record Vm : Type 0 where
  pub guest : Guest
  pub paused : Bool

pub record Engine : Type 0 where
  -- what is committed
  pub db : Db
  -- `LIVE`
  pub live : Dict Vm
  -- the directories below `SNAPDIR`, and the scratch disks below `RUNDIR`
  pub dirs : Dict SnapDir
  pub disks : Dict Files
  pub store : Cas
  -- how many answers have been taken from outside
  pub ticks : ℕ

-- What is not the program's: Firecracker, the kernel, the clock, randomness, hashing, the S3 server.
-- A function of ℕ gives the answer to the n-th question.
pub record Host : Type 0 where
  pub codec : Codec
  -- `uuid.uuid4().hex[:12]`, `secrets.token_urlsafe(24)`, `time.time()`
  pub uuid : ℕ → String
  pub token : ℕ → String
  pub time : ℕ → ℕ
  pub sha256 : String → String
  -- whether a call of Firecracker, mkfs or the guest goes through, and whether an upload does
  pub succeeds : ℕ → Bool
  pub sent : String → Bool
  -- whether a request whose answer did not come had reached the guest all the same
  pub delivered : ℕ → Bool
  -- how many rounds of a polling loop fit before its deadline
  pub rounds : ℕ → ℕ
  -- `str(r)` of a reply
  pub show : Reply → String
  -- a guest that has just booted from the image, and an empty ext4 file system
  pub genesis : Guest
  pub vmstate_size : ℕ → ℕ
  -- what Firecracker writes as a memory file, and what it loads from one
  pub freeze : Guest → Bytes
  pub thaw : Bytes → Option Guest

-- A function of the daemon: what it changed stays changed when it raises.
abbrev pub Exec : Type 0 → Type 0
Exec A = Engine → Result A × Engine

unfoldable pub pure : {A : Type 0} → A → Exec A
pure a s = (ok a, s)

unfoldable pub raise : {A : Type 0} → Error → Exec A
raise e s = (err e, s)

unfoldable pub gets : {A : Type 0} → (Engine → A) → Exec A
gets f s = (ok (f s), s)

unfoldable pub modify : (Engine → Engine) → Exec (Unit {0})
modify f s = (ok tt, f s)

unfoldable pub lift : {A : Type 0} → Result A → Exec A
lift r s = (r, s)

-- a value that may be missing
unfoldable pub or_raise : {A : Type 0} → Error → Option A → Exec A
or_raise e none s = (err e, s)
or_raise e (some a) s = (ok a, s)

-- `con.commit()`, with what the connection has written so far
unfoldable pub commit : Db → Exec (Unit {0})
commit db s = (ok tt, record s { db = db })

-- what follows a call that returned, or that raised
unfoldable pub continue : {A B : Type 0} → Result A → (A → Exec B) → Exec B
continue (ok a) f s = f a s
continue (err e) f s = (err e, s)

infixl 10 ◌>>=◌ ◌>>◌
unfoldable pub ◌>>=◌ : {A B : Type 0} → Exec A → (A → Exec B) → Exec B
unfolding pure raise gets modify lift or_raise commit continue
◌>>=◌ m f s = let (r, s') = m s in continue r f s'

abbrev pub ◌>>◌ : {A B : Type 0} → Exec A → Exec B → Exec B
m >> k = m >>= λ _. k

module _ (h : Host) where
  abbrev pub tick : Engine → Engine
  tick s = record s { ticks = s.ticks + 1 }

  unfoldable pub new_id : Exec String
  new_id s = (ok (h.uuid s.ticks), tick s)

  unfoldable pub now : Exec ℕ
  now s = (ok (h.time s.ticks), tick s)

  unfoldable pub new_key : Exec String
  new_key s = (ok ("klados_" <> h.token s.ticks), tick s)

  -- a call that raises if it does not
  unfoldable pub call : String → Exec (Unit {0})
  call what s = (if h.succeeds s.ticks then ok tt else err (failure what), tick s)
