-- ===== src/Schema/Change.antt =====
-- What a request of a project may do to the tables: the abstract specification of the daemon's
-- handlers.
use klados.Base.{String, ◌≡◌, none, some, List}
use klados.Base.Result.{ok}
use klados.Schema.{
  Db, Project, Run, Snapshot, Instance, running, find, snapshot_is, instance_is, Table, project_of,
  insert_project, new_run_db, new_snapshot_db, new_instance_db, destroyed_db,
}

-- Children of one snapshot, added one after the other, up to the tables `db'`.
pub data Children (snap : Snapshot) (db' : Db) : Db → Type 0 where
  done : (db : Db) → db' ≡ db → Children snap db' db
  child :
      (db mid : Db) (i : Instance)
      → i.run_id ≡ snap.run_id
      → i.snapshot_id ≡ some snap.id
      → i.state ≡ running
      → new_instance_db i db ≡ ok mid
      → Children snap db' mid
      → Children snap db' db

pub data Change (pid : String) (db db' : Db) : Type 0 where
  -- a report, or a handler that raised before its commit
  nothing : db' ≡ db → Change pid db db'
  -- a new project beside those that are there
  project :
      (p : Project) (projects : List Project)
      → insert_project p db ≡ ok projects
      → db' ≡ record db { projects = projects }
      → Change pid db db'
  -- a run of the project, with its first instance
  run :
      (r : Run) (i : Instance)
      → r.project_id ≡ pid
      → i.run_id ≡ r.id
      → i.snapshot_id ≡ none
      → new_run_db r i db ≡ ok db'
      → Change pid db db'
  -- a snapshot of an instance of the project: it hangs under the instance's snapshot, in the
  -- instance's run, and the instance moves on to it
  snapshot :
      (iid : String) (row : Instance) (s : Snapshot)
      → project_of Table.instances iid db ≡ some pid
      → find (instance_is iid) db.instances ≡ some row
      → s.run_id ≡ row.run_id
      → s.parent_id ≡ row.snapshot_id
      → new_snapshot_db s iid db ≡ ok db'
      → Change pid db db'
  -- a fork of a snapshot of the project
  fork :
      (sid : String) (s : Snapshot)
      → project_of Table.snapshots sid db ≡ some pid
      → find (snapshot_is sid) db.snapshots ≡ some s
      → Children s db' db
      → Change pid db db'
  -- an instance of the project is marked as destroyed
  destroy :
      (iid : String)
      → project_of Table.instances iid db ≡ some pid
      → db' ≡ destroyed_db iid db
      → Change pid db db'
