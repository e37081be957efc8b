-- ===== src/Tests/Machines.antt =====
-- The requests to a VM, and an exchange with its agent, on concrete data (spikes/harness/fc.py).
use klados.Base.{◌≡◌, refl, true, false, none, some, [], ◌∷◌, if◌then◌else◌}
use klados.Base.Result.{ok}
use klados.Agent.{handle, plain}
use klados.Microvm.{VmSpec, configure_and_start, load}
use klados.Microvm.Calls.{runs_on, override, runs_on_own_socket}
use klados.Vsock.{Stream, Json, has_newline, serve_conn, vsock_request, starts_ok}
use klados.Vsock.Exchange.{exchange}
use klados.Harness.{Drawn, among, cross_child_collisions}
use klados.Harness.Collisions.{kids_of, drew, collision_reported}
use klados.Tests.Guests.{stopped_guest}

abbrev spec : VmSpec
spec = record {
  kernel = "vmlinux";
  rootfs = "rootfs.ext4";
  mem_mib = 256;
  vcpus = 1;
  track_dirty = true;
  rootfs_read_only = true;
  scratch = some "scratch.ext4";
  vsock_uds = some "vm.vsock";
  vsock_cid = 3;
  boot_args = "console=ttyS0";
}

runs_on_own_socket_example :
    (runs_on none (configure_and_start spec) ≡ some "vm.vsock" ∷ [])
    × (runs_on (some "baked") (load spec "vmstate" "mem" "File" true false (some "fork.vsock"))
        ≡ (if true then override (some "fork.vsock") (some "baked") ∷ [] else []))
runs_on_own_socket_example =
    runs_on_own_socket spec "vmstate" "mem" "File" true false (some "fork.vsock") (some "baked")

-- one message, `{}`, and one answer, `[]`
abbrev json : Json
json = record {
  loads = λ line. some (plain "PING");
  dumps_msg = λ m. 123 ∷ 125 ∷ [];
  dumps = λ r. 91 ∷ 93 ∷ [];
  no_line = 48 ∷ [];
  raised = 49 ∷ [];
}

-- `{`, then `}` and the line's end
abbrev pieces : Stream
pieces = (123 ∷ []) ∷ (125 ∷ 10 ∷ []) ∷ []

-- `OK 5000`
abbrev ack : Stream
ack = (79 ∷ 75 ∷ 32 ∷ []) ∷ (53 ∷ 48 ∷ 48 ∷ 48 ∷ 10 ∷ []) ∷ []

abbrev answer : Stream
answer = (91 ∷ []) ∷ (93 ∷ []) ∷ (10 ∷ []) ∷ []

exchange_example :
    ((serve_conn json pieces stopped_guest).1 ≡ (handle (plain "PING") stopped_guest).1)
    × (vsock_request ack answer ≡ ok (91 ∷ 93 ∷ []))
unfolding has_newline starts_ok serve_conn
exchange_example =
    exchange json (plain "PING") stopped_guest pieces ack answer (refl, (refl, tt)) refl refl refl
      refl (refl, (refl, tt)) refl refl (refl, (refl, (refl, tt))) refl refl

-- 7 was drawn by the children 0 and 2
abbrev drawn : Drawn
drawn = (0, 5 ∷ 7 ∷ []) ∷ (1, 6 ∷ []) ∷ (2, 7 ∷ 8 ∷ []) ∷ []

collisions_run : cross_child_collisions drawn ≡ (7, 2 ∷ 0 ∷ []) ∷ []
unfolding cross_child_collisions
collisions_run = refl

collision_reported_example :
    (among 0 (kids_of 7 (cross_child_collisions drawn)) ≡ true)
    × (among 2 (kids_of 7 (cross_child_collisions drawn)) ≡ true)
unfolding among drew
collision_reported_example = collision_reported 7 0 2 drawn refl refl refl
