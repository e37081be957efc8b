-- ===== src/Tests/Daemon.antt =====
-- Requests to a small daemon (spikes/engine/kladosd.py).
use klados.Base.{◌+◌, ◌*◌, String, ◌≡◌, refl, true, false, not, is_some, ◌&&◌, none, some, [], ◌∷◌}
use klados.Base.Result.{ok}
use klados.Base.Text.{str}
use klados.Base.Dict.{lookup, insert}
use klados.Cas.{flush_s3, put_file, all_sent, init}
use klados.Schema.{running, find, project_of, insert_snapshot, new_snapshot_db}
use klados.Schema.Change.{Change}
use klados.Schema.Integrity.{IsConsistent}
use klados.Engine.{pure, ◌>>=◌, new_id, call, now, commit, Files, Engine, Host}
use klados.Engine.Startup.{bootstrap, bootstrap_opens}
use klados.Engine.Accounts.{project_of_key, require_owner}
use klados.Engine.Runs.{Created, create_run, snapshot_instance}
use klados.Engine.Machines.{quiesce, pause, write_snapshot, seal_scratch, resume, chunk}
use klados.Memory.{chunk_mem}
use klados.Chunking.{blocks}
use klados.Engine.Diff.{Diff, fs_diff}
use klados.Engine.Diff.Laws.{listed, own, readable, differ, fs_diff_lem}
use klados.Engine.Metering.{live_of, meter_tick_bills, meter_rounds_bill}
use klados.Engine.Reports.{meter_tick, meter_rounds, usage}
use klados.Http.{
  created, number, post_snapshot, post_fork, post_destroy, get_diff, get_timeline, caught, Request,
  Body, Method, post, absent, post_route, serve, serve_all,
}
use klados.Http.Path.{segments}
use klados.Http.Refines.{serve-Change}
use klados.Http.Consistency.{serve_all-IsConsistent}
use klados.Sdk.{
  Sandbox, SnapshotRef, empty_body, create_request, snapshot_request, fork_request, diff_request,
  timeline_request, destroy_request,
}
use klados.Sdk.Routes.{IsSegment, has_slash}
use klados.Sdk.Reaches.{requests_reach}
use klados.Http.Path.{is_empty, is_slash}
use klados.Tests.Codecs.{codec}
use klados.Tests.Guests.{stopped_guest}

abbrev pub host : Host
host = record {
  codec = codec;
  uuid = str;
  token = λ n. "token";
  time = λ n. 1000 + n;
  sha256 = λ key. key;
  succeeds = λ n. true;
  sent = λ h. true;
  delivered = λ n. true;
  rounds = λ n. 3;
  show = λ r. "reply";
  genesis = stopped_guest;
  vmstate_size = λ n. 10;
  freeze = λ g. 1 ∷ [];
  thaw = λ image. some stopped_guest;
}

abbrev pub engine : Engine
engine = record {
  db = record {
    projects = record { id = "p"; name = "one"; key_hash = "secret"; created_at = 1 } ∷ [];
    runs = record { id = "r"; project_id = "p"; image = "klados/agent"; created_at = 2 } ∷ [];
    snapshots = [];
    instances =
        record {
          id = "i";
          run_id = "r";
          snapshot_id = none;
          state = running;
          branch = "genesis";
          created_at = 2;
        }
        ∷ [];
    usage = [];
  };
  live = ("i", record { guest = stopped_guest; paused = false }) ∷ [];
  dirs = [];
  disks = ("i", []) ∷ [];
  store = init 4096 true 6 true false [] [];
  ticks = 0;
}

abbrev body : Body
body = record { name = none; image = none; label = some "before"; n = absent }

abbrev pub request : Method → String → String → Request
request method path key = record { method = method; path = path; key = key; body = some body }

abbrev asked_snapshot : Request
asked_snapshot = request post "/v1/instances/i/snapshot" "secret"

the_key : project_of_key host "secret" engine.db ≡ some "p"
unfolding project_of_key find
the_key = refl

serve-Change_example : Change "p" engine.db (serve host asked_snapshot engine).1.db
serve-Change_example = serve-Change host asked_snapshot engine the_key

no_key : project_of_key host "wrong" engine.db ≡ none
unfolding project_of_key find
no_key = refl

pub engine-IsConsistent : IsConsistent engine.db
unfolding find
engine-IsConsistent = record {
  snapshot_runs = tt;
  instance_runs = (refl, tt);
  forest = tt;
  unique = (refl, tt);
  lineage = (tt, tt);
}

serve_all-IsConsistent_example :
    IsConsistent
      (serve_all host
        (asked_snapshot
          ∷ request post "/v1/runs" "secret"
          ∷ request post "/v1/instances/i/destroy" "secret"
          ∷ [])
        engine).1.db
serve_all-IsConsistent_example =
    serve_all-IsConsistent host
      (asked_snapshot
        ∷ request post "/v1/runs" "secret"
        ∷ request post "/v1/instances/i/destroy" "secret"
        ∷ [])
      engine engine-IsConsistent

meter_tick_bills_example :
    let s' = (meter_tick host 256 5 engine).1 in
    ((usage "p" s'.db).0 ≡ (usage "p" engine.db).0 + 5 * live_of "p" engine.db engine.live)
    × ((usage "p" s'.db).1 ≡ (usage "p" engine.db).1 + 256 * 5 * live_of "p" engine.db engine.live)
    × (s'.db ≡ record engine.db { usage = s'.db.usage })
    × (s'.live ≡ engine.live)
meter_tick_bills_example = meter_tick_bills host 256 5 "p" engine

abbrev layer_a : Files
layer_a = ("x", some (1, "h")) ∷ ("y", some (2, "h")) ∷ ("lost+found/z", some (1, "h")) ∷ []

abbrev layer_b : Files
layer_b = ("y", some (3, "g")) ∷ ("z", some (1, "h")) ∷ []

fs_diff_runs :
    fs_diff (some layer_a) (some layer_b)
    ≡ some (record { added = "z" ∷ []; removed = "x" ∷ []; modified = "y" ∷ [] })
unfolding fs_diff lookup
fs_diff_runs = refl

fs_diff_lem_example :
    (d : Diff) × (fs_diff (some layer_a) (some layer_b) ≡ some d)
    × (listed "y" d.added
        ≡ (not (own "y") && is_some (readable "y" layer_b) && not (is_some (readable "y" layer_a))))
    × (listed "y" d.removed
        ≡ (not (own "y") && is_some (readable "y" layer_a) && not (is_some (readable "y" layer_b))))
    × (listed "y" d.modified
        ≡ (not (own "y") && differ (readable "y" layer_a) (readable "y" layer_b)))
fs_diff_lem_example = fs_diff_lem "y" layer_a layer_b

-- the row of a snapshot that was asked for
snapshot_runs :
    (serve_all host (asked_snapshot ∷ []) engine).1.db.snapshots
    ≡ record {
      id = "0";
      run_id = "r";
      parent_id = none;
      label = "before";
      dir = "0";
      size_bytes = 11;
      created_at = 1005;
    }
      ∷ []
unfolding serve_all lookup insert find str project_of_key post_route segments ◌>>=◌ require_owner
    project_of snapshot_instance new_id quiesce pause call write_snapshot seal_scratch resume chunk
    chunk_mem flush_s3 put_file insert_snapshot new_snapshot_db all_sent blocks now commit
snapshot_runs = refl

abbrev sandbox : Sandbox
sandbox = record { instance_id = "i"; run_id = "r"; branch = none }

abbrev snapshot_a : SnapshotRef
snapshot_a = record { id = "a1"; run_id = "r" }

plain_i : IsSegment "i"
unfolding is_empty has_slash is_slash
plain_i = record { filled = refl; plain = refl }

plain_r : IsSegment "r"
unfolding is_empty has_slash is_slash
plain_r = record { filled = refl; plain = refl }

plain_a : IsSegment "a1"
unfolding is_empty has_slash is_slash
plain_a = record { filled = refl; plain = refl }

requests_reach_example :
    (serve host (create_request "secret" "img") engine
      ≡ caught host (create_run host "p" "img" >>= λ (c : Created). pure (200, created c)) engine)
    × (serve host (snapshot_request "secret" sandbox "l") engine
        ≡ caught host (post_snapshot host "p" "i" (record empty_body { label = some "l" })) engine)
    × (serve host (fork_request "secret" snapshot_a 2) engine
        ≡ caught host (post_fork host "p" "a1" (record empty_body { n = number 2 })) engine)
    × (serve host (destroy_request "secret" sandbox) engine
        ≡ caught host (post_destroy host "p" "i") engine)
    × (serve host (diff_request "secret" snapshot_a snapshot_a) engine
        ≡ caught host (get_diff host "p" "a1" "a1") engine)
    × (serve host (timeline_request "secret" sandbox) engine
        ≡ caught host (get_timeline host "p" "r") engine)
requests_reach_example =
    requests_reach host "secret" engine the_key sandbox snapshot_a snapshot_a "img" "l" 2 plain_i
      plain_r plain_a plain_a

abbrev empty_engine : Engine
empty_engine = record engine { db = record engine.db { projects = [] } }

bootstrap_opens_example :
    (key pid : String) × ((bootstrap host empty_engine).0 ≡ ok (some key))
    × (project_of_key host key (bootstrap host empty_engine).1.db ≡ some pid)
    × (bootstrap host (bootstrap host empty_engine).1 ≡ (ok none, (bootstrap host empty_engine).1))
bootstrap_opens_example = bootstrap_opens host empty_engine refl

meter_rounds_bill_example :
    (usage "p" (meter_rounds host 256 2 30 engine).db).0
    ≡ (usage "p" engine.db).0 + 30 * (2 * live_of "p" engine.db engine.live)
meter_rounds_bill_example = meter_rounds_bill host 256 2 "p" 30 engine
