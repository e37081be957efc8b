-- ===== src/Http/Isolation.antt =====
-- Requests of one project leave what another project is shown as it is (spikes/engine/kladosd.py).
use klados.Base.{◌≡◌, ap, ◌∙◌, false, some, String, List, ◌≟◌}
use klados.Schema.{Run, Snapshot, Instance, select, order_by, project_of_run}
use klados.Schema.Integrity.{IsConsistent}
use klados.Schema.Isolation.{Change-Unseen}
use klados.Engine.{Engine, Host}
use klados.Engine.Accounts.{project_of_key}
use klados.Engine.Reports.{Timeline, timeline, list_runs}
use klados.Http.{Request, serve}
use klados.Http.Refines.{serve-Change}

-- the timeline that the rows of a run make
abbrev line : String → List Snapshot → List Instance → Timeline
line rid snaps rows = record {
  run_id = rid;
  snapshots = order_by (λ (t : Snapshot). t.created_at) snaps;
  instances = rows;
}

-- On consistent tables a request with the key of one project, whatever its path and body and whether it
-- succeeds or raises, changes nothing in the list of another project's runs, nor in the timeline of a run
-- that belongs to the other project.
pub serve_elsewhere :
    (h : Host) (r : Request) (s : Engine) (pid other rid : String)
    → IsConsistent s.db
    → project_of_key h r.key s.db ≡ some pid
    → project_of_run rid s.db ≡ some other
    → (other ≟ pid) ≡ false
    → (list_runs other (serve h r s).1.db ≡ list_runs other s.db)
      × (timeline rid (serve h r s).1.db ≡ timeline rid s.db)
unfolding list_runs timeline
serve_elsewhere h r s pid other rid c key own ne =
    let u = Change-Unseen pid other rid ne s.db _ c own (serve-Change h r s key) in
    let rows' = select (λ (i : Instance). i.run_id ≟ rid) (serve h r s).1.db.instances in
    let snaps = select (λ (t : Snapshot). t.run_id ≟ rid) s.db.snapshots in
    (
      ap (order_by (λ (q : Run). q.created_at)) u.own_runs,
      ap (λ z. line rid z rows') u.snapshots ∙ ap (line rid snaps) u.instances,
    )
