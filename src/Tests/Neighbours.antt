-- ===== src/Tests/Neighbours.antt =====
-- An example of two projects side by side (spikes/engine/kladosd.py).
use klados.Base.{◌≡◌, refl, ◌∷◌}
use klados.Schema.{Project, find, project_of_run}
use klados.Schema.Integrity.{IsConsistent}
use klados.Engine.{Engine}
use klados.Engine.Accounts.{project_of_key}
use klados.Engine.Reports.{timeline, list_runs}
use klados.Http.{Request, post, serve}
use klados.Http.Isolation.{serve_elsewhere}
use klados.Tests.Daemon.{host, engine, engine-IsConsistent, request}

abbrev second : Project
second = record { id = "q"; name = "two"; key_hash = "hidden"; created_at = 3 }

abbrev shared : Engine
shared = record engine { db = record engine.db { projects = second ∷ engine.db.projects } }

shared-IsConsistent : IsConsistent shared.db
shared-IsConsistent = record {
  snapshot_runs = engine-IsConsistent.snapshot_runs;
  instance_runs = engine-IsConsistent.instance_runs;
  forest = engine-IsConsistent.forest;
  unique = engine-IsConsistent.unique;
  lineage = engine-IsConsistent.lineage;
}

-- the second project asks to destroy the first one's instance
abbrev theft : Request
theft = request post "/v1/instances/i/destroy" "hidden"

serve_elsewhere_example :
    (list_runs "p" (serve host theft shared).1.db ≡ list_runs "p" shared.db)
    × (timeline "r" (serve host theft shared).1.db ≡ timeline "r" shared.db)
unfolding project_of_key find project_of_run
serve_elsewhere_example =
    serve_elsewhere host theft shared "q" "p" "r" shared-IsConsistent refl refl refl
