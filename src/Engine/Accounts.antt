-- ===== src/Engine/Accounts.antt =====
-- Projects and API keys: `create_project`, `project_of_key`, `_require_owner` of
-- spikes/engine/kladosd.py.
use Prim.Native.String.{◌++◌ as ◌<>◌}
use klados.Base.{String, Bool, Option, none, some, ◌≟◌, if◌then◌else◌}
use klados.Base.Result.{forbidden}
use klados.Schema.{Db, Project, find, insert_project, Table, project_of}
use klados.Engine.{Host, Exec, ◌>>=◌, ◌>>◌, pure, raise, gets, lift, commit, new_id, now, new_key}

-- the key is shown once, and only its hash is stored
pub record NewProject : Type 0 where
  pub project_id : String
  pub name : String
  pub api_key : String

module _ (h : Host) where
  unfoldable pub create_project : String → Exec NewProject
  create_project name = do
    key ← new_key h
    pid ← new_id h
    t ← now h
    db ← gets (λ s. s.db)
    let row : Project = record { id = pid; name = name; key_hash = h.sha256 key; created_at = t }
    projects ← lift (insert_project row db)
    commit (record db { projects = projects })
    pure (record { project_id = pid; name = name; api_key = key })

  -- `SELECT id FROM projects WHERE key_hash=?`
  unfoldable pub id_of : Option Project → Option String
  id_of none = none
  id_of (some p) = some p.id

  -- `project_of_key`; a missing header is the empty key
  unfoldable pub project_of_key : String → Db → Option String
  unfolding id_of
  project_of_key key db =
      if key ≟ ""
      then none
      else id_of (find (λ (p : Project). p.key_hash ≟ h.sha256 key) db.projects)

-- `owner != project_id`
unfoldable pub owns : String → Option String → Bool
owns project_id none = Bool.false
owns project_id (some owner) = owner ≟ project_id

-- `_require_owner`
unfoldable pub require_owner : String → Table → String → Exec (Unit {0})
unfolding owns
require_owner project_id table val s =
    if owns project_id (project_of table val s.db)
    then pure tt s
    else raise (forbidden (val <> " is not in your project")) s
