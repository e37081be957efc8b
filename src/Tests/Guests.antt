-- ===== src/Tests/Guests.antt =====
-- A forked guest and its process (spikes/guest/guest_agent.py, spikes/guest/sitecustomize.py).
use klados.Base.{ℕ, ◌+◌, ◌≡◌, ◌≢◌, refl, true, false, none, some, List, [], ◌∷◌}
use klados.Agent.{check, numeral, Guest, handle, forked_msg, plain, is_type, current_gen}
use klados.Agent.Protocol.{release_changes_gen}
use klados.Hook.{random, openssl, World, Event, message, checking, drawing, run}
use klados.Agent.Check.{no_twins, count_of, rows_of, count_all, check_counts}

-- a guest whose workload is stopped, in generation 3
abbrev pub stopped_guest : Guest
stopped_guest = record {
  forkgen = some (numeral 3);
  branch = none;
  data_branch = none;
  data_writable = true;
  stopped = true;
  released = some (numeral 2);
  pid = 17;
  unsynced = false;
  clock = 100;
  may_set_clock = true;
  app_db = none;
  session = none;
  browser_token = none;
  browser_state = none;
}

abbrev snapshot_world : World
snapshot_world = record {
  guest = stopped_guest;
  proc = record {
    gen = some (numeral 3);
    random = record { seed = 1; drawn = 40; earlier = [] };
    openssl = record { seed = 2; drawn = 7; earlier = [] };
    call = none;
  };
}

-- what happens in a child whose kernel offers `a` and `b`, and then the same
abbrev child_events : ℕ → ℕ → List Event
child_events a b =
    message (forked_msg 0 2 500 "branch-0")
    ∷ checking random (a, b)
    ∷ drawing
    ∷ checking openssl (a, b)
    ∷ drawing
    ∷ []

child_runs :
    (run (child_events 11 12) snapshot_world).0
    ≡ record { seed = 11; drawn = 0; earlier = [] }
      ∷ record { seed = 12; drawn = 0; earlier = (2, 7) ∷ [] }
      ∷ []
unfolding run handle
child_runs = refl

-- A process that was stopped between the check and the draw draws what the snapshot froze.
frozen_between :
    (run
      (message (forked_msg 0 2 500 "branch-0") ∷ drawing ∷ [])
      (record snapshot_world { proc = record snapshot_world.proc { call = some random } })).0
    ≡ record { seed = 1; drawn = 40; earlier = [] } ∷ []
unfolding run handle
frozen_between = refl

release_changes_gen_example :
    (is_type "FORKED" (forked_msg 0 2 500 "branch-0") ≡ true)
    × ((handle (forked_msg 0 2 500 "branch-0") stopped_guest).1.released
        ≡ some (numeral (current_gen stopped_guest.forkgen + 1)))
    × ((handle (forked_msg 0 2 500 "branch-0") stopped_guest).1.released ≢ stopped_guest.forkgen)
    × ((handle (forked_msg 0 2 500 "branch-0") stopped_guest).1.forkgen
        ≡ (handle (forked_msg 0 2 500 "branch-0") stopped_guest).1.released)
unfolding handle
release_changes_gen_example =
    release_changes_gen (forked_msg 0 2 500 "branch-0") stopped_guest refl refl

-- a guest whose database has rows of two workers
abbrev counting_guest : Guest
counting_guest = record stopped_guest {
  app_db = some (record { integrity = "ok"; writes = 1 ∷ 2 ∷ 1 ∷ []; meanwhile = 2 ∷ [] });
}

check_counts_example :
    (groups : List (ℕ × ℕ)) × (total : ℕ) × (handle (plain "CHECK") counting_guest
      ≡ (check "ok" groups total none, counting_guest))
    × ((w : ℕ) → count_of w groups ≡ rows_of w (1 ∷ 2 ∷ 1 ∷ []))
    × (no_twins groups ≡ true)
    × (total ≡ 1 + count_all groups)
check_counts_example =
    check_counts counting_guest
      (record { integrity = "ok"; writes = 1 ∷ 2 ∷ 1 ∷ []; meanwhile = 2 ∷ [] }) refl

abbrev child_offers : List (ℕ × ℕ)
child_offers = (11, 12) ∷ (13, 14) ∷ (15, 16) ∷ []
