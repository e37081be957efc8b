-- ===== src/Microvm.antt =====
-- `class Microvm` of spikes/harness/fc.py: a Firecracker process and the API requests that drive it.
pub mod Calls
use klados.Base.{
  ℕ, zero, suc, String, Bool, true, false, not, ◌&&◌, Option, none, some, List, [], ◌∷◌, ◌++◌,
  is_some, ◌||◌, ◌≟◌, if◌then◌else◌,
}
use klados.Base.Result.{Result, ok, err, failure}

-- An empty path of `scratch` or `vsock_uds` counts as none, as in the tests of `configure_and_start`.
pub record VmSpec : Type 0 where
  pub kernel : String
  pub rootfs : String
  pub mem_mib : ℕ
  pub vcpus : ℕ
  pub track_dirty : Bool
  pub rootfs_read_only : Bool
  pub scratch : Option String
  pub vsock_uds : Option String
  pub vsock_cid : ℕ
  pub boot_args : String

pub record Drive : Type 0 where
  pub drive_id : String
  pub path_on_host : String
  pub is_root_device : Bool
  pub is_read_only : Bool

pub data Backend : Type 0 where
  file uffd : Backend

pub data Kind : Type 0 where
  full diff : Kind

-- The requests of the API, by path, with their bodies.
pub data Call : Type 0 where
  boot_source : String → String → Call
  put_drive : Drive → Call
  machine_config : ℕ → ℕ → Bool → Call
  put_vsock : ℕ → String → Call
  instance_start : Call
  -- PATCH /vm
  paused resumed : Call
  snapshot_create : Kind → String → String → Call
  -- snapshot, backend and its path, diff snapshots, resume_vm
  snapshot_load : String → Backend → String → Bool → Bool → Call

abbrev pub scratch_calls : Option String → List Call
scratch_calls none = []
scratch_calls (some path) =
    put_drive (record {
      drive_id = "scratch";
      path_on_host = path;
      is_root_device = false;
      is_read_only = false;
    })
    ∷ []

abbrev pub vsock_calls : ℕ → Option String → List Call
vsock_calls cid none = []
vsock_calls cid (some uds) = put_vsock cid uds ∷ []

-- `configure_and_start`
unfoldable pub configure_and_start : VmSpec → List Call
configure_and_start s =
    boot_source s.kernel s.boot_args
    ∷ put_drive (record {
      drive_id = "rootfs";
      path_on_host = s.rootfs;
      is_root_device = true;
      is_read_only = s.rootfs_read_only;
    })
    ∷ (scratch_calls s.scratch
        ++ (machine_config s.vcpus s.mem_mib s.track_dirty
            ∷ (vsock_calls s.vsock_cid s.vsock_uds ++ instance_start ∷ [])))

-- `snapshot`
unfoldable pub snapshot : String → String → Bool → List Call
snapshot snap_path mem_path is_diff =
    snapshot_create (if is_diff then diff else full) snap_path mem_path ∷ []

-- `load`
abbrev pub backend_of : String → Backend
backend_of name = if name ≟ "Uffd" then uffd else file

unfoldable pub load : VmSpec → String → String → String → Bool → Bool → Option String → List Call
load s snap_path mem_path backend resume enable_diff none =
    snapshot_load snap_path (backend_of backend) mem_path enable_diff resume ∷ []
load s snap_path mem_path backend resume enable_diff (some uds) =
    snapshot_load snap_path (backend_of backend) mem_path enable_diff false
    ∷ put_vsock s.vsock_cid uds
    ∷ (if resume then resumed ∷ [] else [])

-- The API of a process whose states are `S`: a request is answered, or refused with an error status,
-- which raises.
abbrev pub Api {ℓ} : Type ℓ → Type ℓ
Api S = Call → S → Option S

unfoldable pub after_call {ℓ} :
    {S : Type ℓ} → Option S → S → (S → Result (Unit {0}) × S) → Result (Unit {0}) × S
after_call none s k = (err (failure "firecracker"), s)
after_call (some s') s k = k s'

-- the requests one after the other, up to the first that is refused
unfoldable pub send {ℓ} : {S : Type ℓ} → Api S → List Call → S → Result (Unit {0}) × S
unfolding after_call
send api [] s = (ok tt, s)
send api (c ∷ calls) s = after_call (api c s) s (send api calls)

-- The process, its console file and its socket file.
pub record Process : Type 0 where
  pub alive : Bool
  pub console_open : Bool
  pub sock : Bool
  -- the `proc` and `api` attributes are set
  pub spawned : Bool

-- `_await_sock`: `ready` says at each poll whether the socket file is there and GET / is answered
unfoldable pub await_sock : List (Bool × Bool) → Result (Unit {0})
await_sock [] = err (failure "firecracker api socket never came up")
await_sock ((there, answers) ∷ polls) =
    let later = await_sock polls in if there && answers then ok tt else later

-- the socket file was there at a poll, and stays
unfoldable pub seen : List (Bool × Bool) → Bool
seen [] = false
seen ((there, answers) ∷ polls) = there || seen polls

-- `_spawn`: an old socket file is removed; what is started stays, also where the socket never answers.
unfoldable pub spawn : Option String → List (Bool × Bool) → Process → Result (Unit {0}) × Process
unfolding await_sock seen
spawn console polls p = (
  await_sock polls,
  record { alive = true; console_open = is_some console; sock = seen polls; spawned = true },
)

-- `kill`
unfoldable pub kill : Process → Process
kill p = record p { alive = false; console_open = false; sock = false }
