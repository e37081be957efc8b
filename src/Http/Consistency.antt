-- ===== src/Http/Consistency.antt =====
-- The invariant of the tables over the requests that spikes/engine/kladosd.py serves.
use mathlib.Core.Path.{subst}
use klados.Base.{sym, ap, List, [], ◌∷◌, inl, inr, Option-cases}
use klados.Schema.Integrity.{IsConsistent}
use klados.Schema.Keeps.{Change-IsConsistent}
use klados.Engine.{Engine, Host}
use klados.Engine.Accounts.{project_of_key}
use klados.Http.{Request, serve, serve_all}
use klados.Http.Refines.{serve-Change, serve-unauthorized}

serve-IsConsistent :
    (h : Host) (r : Request) (s : Engine) → IsConsistent s.db → IsConsistent (serve h r s).1.db
serve-IsConsistent h r s c = elim (Option-cases (project_of_key h r.key s.db)) [
  | inl bad ↦ subst IsConsistent (sym (ap (λ p. p.1.db) (serve-unauthorized h r s bad))) c
  | inr (pid, good) ↦ Change-IsConsistent pid s.db _ (serve-Change h r s good) c
]

-- From consistent tables, whatever requests come, in whatever order and with whatever outcome, the
-- tables stay consistent: every snapshot and instance lies in a run that exists, the parents of
-- the snapshots form a forest within each run, the ids of snapshots and of instances are unique,
-- and an instance's snapshot is one of its run.
pub serve_all-IsConsistent :
    (h : Host) (rs : List Request) (s : Engine)
    → IsConsistent s.db
    → IsConsistent (serve_all h rs s).1.db
unfolding serve_all
serve_all-IsConsistent h [] s c = c
serve_all-IsConsistent h (r ∷ rs) s c =
    serve_all-IsConsistent h rs (serve h r s).1 (serve-IsConsistent h r s c)
