-- ===== src/Microvm/Calls.antt =====
-- On which socket a VM runs that `class Microvm` of spikes/harness/fc.py starts or restores.
use klados.Base.{
  String, ◌≡◌, refl, Bool, true, false, Option, none, some, List, [], ◌∷◌, ◌++◌, if◌then◌else◌,
}
use klados.Microvm.{
  VmSpec, Call, machine_config, put_vsock, instance_start, resumed, snapshot_load, scratch_calls,
  vsock_calls, configure_and_start, load,
}

-- The socket that is in effect each time the requests let the VM run, from the socket `uds` on.
unfoldable pub runs_on : Option String → List Call → List (Option String)
runs_on uds [] = []
runs_on uds (put_vsock cid path ∷ calls) = runs_on (some path) calls
runs_on uds (instance_start ∷ calls) = uds ∷ runs_on uds calls
runs_on uds (resumed ∷ calls) = uds ∷ runs_on uds calls
runs_on uds (snapshot_load snap backend mem is_diff resume ∷ calls) =
    let rest = runs_on uds calls in if resume then uds ∷ rest else rest
runs_on uds (c ∷ calls) = runs_on uds calls

abbrev pub override : Option String → Option String → Option String
override none baked = baked
override (some uds) baked = some uds

configure_runs : (s : VmSpec) → runs_on none (configure_and_start s) ≡ s.vsock_uds ∷ []
unfolding runs_on configure_and_start
configure_runs s = go s.scratch s.vsock_uds
  where
    go :
        (scratch uds : Option String)
        → runs_on none (
            scratch_calls scratch
            ++ (machine_config s.vcpus s.mem_mib s.track_dirty
                ∷ (vsock_calls s.vsock_cid uds ++ instance_start ∷ [])))
          ≡ uds ∷ []
    go none none = refl
    go none (some uds) = refl
    go (some path) none = refl
    go (some path) (some uds) = refl

load_runs :
    (s : VmSpec) (snap mem backend : String) (resume is_diff : Bool) (uds baked : Option String)
    → runs_on baked (load s snap mem backend resume is_diff uds)
      ≡ (if resume then override uds baked ∷ [] else [])
unfolding runs_on load
load_runs s snap mem backend resume is_diff none baked = refl
load_runs s snap mem backend true is_diff (some uds) baked = refl
load_runs s snap mem backend false is_diff (some uds) baked = refl

-- A VM that is configured and started begins to run exactly once, on the socket of its specification,
-- if it has one; one that is restored begins to run exactly once if it is to be resumed, and else not,
-- and then on the socket that is given for it, or on the baked one if none is given.
pub runs_on_own_socket :
    (s : VmSpec) (snap mem backend : String) (resume is_diff : Bool) (uds baked : Option String)
    → (runs_on none (configure_and_start s) ≡ s.vsock_uds ∷ [])
      × (runs_on baked (load s snap mem backend resume is_diff uds)
          ≡ (if resume then override uds baked ∷ [] else []))
runs_on_own_socket s snap mem backend resume is_diff uds baked =
    (configure_runs s, load_runs s snap mem backend resume is_diff uds baked)
