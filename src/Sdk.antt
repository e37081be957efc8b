-- ===== src/Sdk.antt =====
-- The Python SDK, spikes/sdk/klados/__init__.py: the requests that it sends, and what it makes of the
-- responses.
pub mod Routes
pub mod Reaches
use Prim.Native.String.{◌++◌ as ◌<>◌}
use klados.Base.{ℕ, String, Bool, Option, none, some, List, [], ◌∷◌, leb, if◌then◌else◌}
use klados.Base.Result.{Result, ok, err, failure}
use klados.Engine.Runs.{Created, Taken, Child}
use klados.Http.{
  Method, get, post, IntField, absent, number, Body, Request, Payload, created, taken, children,
  tree, Response,
}
use klados.Engine.Reports.{Timeline}

pub record Sandbox : Type 0 where
  pub instance_id : String
  pub run_id : String
  pub branch : Option String

-- `class Snapshot`
pub record SnapshotRef : Type 0 where
  pub id : String
  pub run_id : String

abbrev pub empty_body : Body
empty_body = record { name = none; image = none; label = none; n = absent }

-- `_call`: the request that it sends; a body that is not given is read as `{}`
abbrev pub call : String → Method → String → Body → Request
call key method path body = record { method = method; path = path; key = key; body = some body }

module _ (key : String) where
  -- the request of `Sandbox.create`
  unfoldable pub create_request : String → Request
  create_request image = call key post "/v1/runs" (record empty_body { image = some image })

  -- the request of `Sandbox.snapshot`
  unfoldable pub snapshot_request : Sandbox → String → Request
  snapshot_request sb label =
      call key post ("/v1/instances/" <> (sb.instance_id <> "/snapshot"))
        (record empty_body { label = some label })

  -- the request of `Snapshot.fork`
  unfoldable pub fork_request : SnapshotRef → ℕ → Request
  fork_request snap n =
      call key post ("/v1/snapshots/" <> (snap.id <> "/fork")) (record empty_body { n = number n })

  -- the request of `Snapshot.diff`
  unfoldable pub diff_request : SnapshotRef → SnapshotRef → Request
  diff_request snap other =
      call key get ("/v1/snapshots/" <> (snap.id <> ("/diff/" <> other.id))) empty_body

  -- the request of `Sandbox.timeline`
  unfoldable pub timeline_request : Sandbox → Request
  timeline_request sb = call key get ("/v1/runs/" <> (sb.run_id <> "/timeline")) empty_body

  -- the request of `Sandbox.destroy`
  unfoldable pub destroy_request : Sandbox → Request
  destroy_request sb = call key post ("/v1/instances/" <> (sb.instance_id <> "/destroy")) empty_body

-- `except urllib.error.HTTPError`: every status from 400 on raises
unfoldable pub read_response : Response → Result Payload
read_response (status, payload) = if leb 400 status then err (failure "KladosError") else ok payload

-- the end of `Sandbox.create`, which reads fields of the response
unfoldable pub sandbox_of : Result Payload → Result Sandbox
sandbox_of (err e) = err e
sandbox_of (ok (created c)) =
    ok (record { instance_id = c.instance_id; run_id = c.run_id; branch = some "genesis" })
sandbox_of (ok p) = err (failure "KeyError")

-- the end of `Sandbox.snapshot`
unfoldable pub snapshot_of : Sandbox → Result Payload → Result SnapshotRef
snapshot_of sb (err e) = err e
snapshot_of sb (ok (taken t)) = ok (record { id = t.snapshot_id; run_id = sb.run_id })
snapshot_of sb (ok p) = err (failure "KeyError")

unfoldable pub sandboxes : String → List Child → List Sandbox
sandboxes run_id [] = []
sandboxes run_id (c ∷ cs) =
    record { instance_id = c.instance_id; run_id = run_id; branch = some c.branch }
    ∷ sandboxes run_id cs

-- the end of `Snapshot.fork`
unfoldable pub children_of : SnapshotRef → Result Payload → Result (List Sandbox)
unfolding sandboxes
children_of snap (err e) = err e
children_of snap (ok (children cs)) = ok (sandboxes snap.run_id cs)
children_of snap (ok p) = err (failure "KeyError")

-- what `Sandbox.timeline` wraps, with its fields as properties
unfoldable pub timeline_of : Result Payload → Result Timeline
timeline_of (err e) = err e
timeline_of (ok (tree t)) = ok t
timeline_of (ok p) = err (failure "KeyError")

-- `__exit__`: the instance is destroyed, and an error of that is passed over
unfoldable pub leave : Result Payload → Result (Unit {0})
leave (ok p) = ok tt
leave (err e) = ok tt
