-- ===== src/Engine/Runs.antt =====
-- The operations on runs: `create_run`, `snapshot_instance`, `fork_snapshot`, `destroy_instance` of
-- spikes/engine/kladosd.py.
use Prim.Native.String.{◌++◌ as ◌<>◌}
use klados.Base.{ℕ, zero, suc, ◌+◌, String, Option, none, some, List, [], ◌∷◌}
use klados.Base.Dict.{lookup, erase}
use klados.Base.Result.{Result, ok, err, Error, failure, key_error}
use klados.Base.Text.{str}
use klados.Agent.{Reply, ready, forked_msg}
use klados.Schema.{
  Db, Run, Snapshot, Instance, running, find, snapshot_is, instance_is, new_run_db, new_snapshot_db,
  new_instance_db, destroyed_db,
}
use klados.Engine.{Host, Exec, ◌>>=◌, ◌>>◌, pure, gets, modify, lift, or_raise, commit, new_id, now}
use klados.Engine.Machines.{
  dir_of, set_dir, ask, wait_agent, quiesce, boot_vm, pause, write_snapshot, seal_scratch, resume,
  chunk, reconstruct,
}

-- what a handler returns
pub record Created : Type 0 where
  pub run_id : String
  pub instance_id : String

pub record Taken : Type 0 where
  pub snapshot_id : String
  pub size_bytes : ℕ
  pub parent : Option String

pub record Child : Type 0 where
  pub instance_id : String
  pub branch : String

-- `f"branch {i} of {n}"`
unfoldable pub branch_name : ℕ → ℕ → String
branch_name i n = "branch " <> (str i <> (" of " <> str n))

module _ (h : Host) where
  unfoldable pub create_run : String → String → Exec Created
  unfolding new_run_db
  create_run project_id image_label = do
    rid ← new_id h
    iid ← new_id h
    t ← now h
    t' ← now h
    let r : Run = record { id = rid; project_id = project_id; image = image_label; created_at = t }
    let i : Instance = record {
      id = iid;
      run_id = rid;
      snapshot_id = none;
      state = running;
      branch = "genesis";
      created_at = t';
    }
    db ← gets (λ s. s.db)
    db' ← lift (new_run_db r i db)
    commit db'
    boot_vm h iid none none
    wait_agent h iid
    pure (record { run_id = rid; instance_id = iid })

  -- the part of `snapshot_instance` that deals with the VM and the files
  unfoldable pub take_image : String → String → Exec ℕ
  take_image iid sid = do
    modify (λ s. set_dir sid (dir_of sid s) s)
    quiesce h iid
    live ← gets (λ s. lookup iid s.live)
    vm ← or_raise (key_error iid) live
    pause h iid vm
    write_snapshot h sid vm
    layer ← gets (λ s. lookup iid s.disks)
    seal_scratch h sid layer
    resume h iid vm
    logical ← chunk h sid
    size ← gets (λ s. (dir_of sid s).vmstate)
    vmstate ← or_raise (failure "no vmstate") size
    pure (logical + vmstate)

  unfoldable pub snapshot_instance : String → String → Exec Taken
  unfolding take_image new_snapshot_db
  snapshot_instance iid label = do
    live ← gets (λ s. lookup iid s.live)
    vm ← or_raise (key_error iid) live
    found ← gets (λ s. find (instance_is iid) s.db.instances)
    row ← or_raise (failure "no row") found
    sid ← new_id h
    size ← take_image iid sid
    t ← now h
    let snap : Snapshot = record {
      id = sid;
      run_id = row.run_id;
      parent_id = row.snapshot_id;
      label = label;
      dir = sid;
      size_bytes = size;
      created_at = t;
    }
    db ← gets (λ s. s.db)
    db' ← lift (new_snapshot_db snap iid db)
    commit db'
    pure (record { snapshot_id = sid; size_bytes = size; parent = row.snapshot_id })

  -- `if r.get("status") != "READY"`
  unfoldable pub branch_of : Reply → String → String
  branch_of (ready index gen clock) branch = branch
  branch_of r branch = "ERR:" <> h.show r

  unfoldable pub error_text : Error → String
  error_text (Error.key_error e) = e
  error_text (Error.forbidden e) = e
  error_text (Error.failure e) = e

  -- the branch that the row gets, by the answer or the exception
  unfoldable pub branch_told : String → Result Reply → String
  unfolding branch_of error_text
  branch_told branch (ok reply) = branch_of reply branch
  branch_told branch (err e) = "ERR:" <> error_text e

  -- the `try` in the loop
  unfoldable pub tell_forked : String → ℕ → ℕ → Exec String
  unfolding branch_told
  tell_forked iid i n = do
    wait_agent h iid
    t ← now h
    λ s.
        let (r, s') = ask h iid (forked_msg i n t (branch_name i n)) s in
        (ok (branch_told (branch_name i n) r), s')

  -- one round of the loop: the connection's tables come back, nothing is committed yet
  unfoldable pub fork_child : Snapshot → ℕ → ℕ → Db → Exec (Db × Child)
  unfolding tell_forked new_instance_db
  fork_child snap i n db = do
    iid ← new_id h
    boot_vm h iid (some snap.dir) (some snap.id)
    branch ← tell_forked iid i n
    t ← now h
    let row : Instance = record {
      id = iid;
      run_id = snap.run_id;
      snapshot_id = some snap.id;
      state = running;
      branch = branch;
      created_at = t;
    }
    db' ← lift (new_instance_db row db)
    pure (db', record { instance_id = iid; branch = branch })

  -- `for i in range(n)`, with the number of rounds left
  unfoldable pub fork_children : ℕ → Snapshot → ℕ → ℕ → Db → Exec (Db × List Child)
  unfolding fork_child
  fork_children zero snap i n db = pure (db, [])
  fork_children (suc left) snap i n db = do
    one ← fork_child snap i n db
    rest ← fork_children left snap (i + 1) n one.0
    pure (rest.0, one.1 ∷ rest.1)

  unfoldable pub fork_snapshot : String → ℕ → Exec (List Child)
  unfolding fork_children
  fork_snapshot sid n = do
    db ← gets (λ s. s.db)
    snap ← or_raise (key_error sid) (find (snapshot_is sid) db.snapshots)
    reconstruct h sid
    done ← fork_children n snap 0 n db
    commit done.0
    pure done.1

  -- `LIVE.pop(iid, None)`, the kill of the VM, which raises nothing, and the row
  unfoldable pub destroy_instance : String → Exec String
  unfolding destroyed_db
  destroy_instance iid = do
    modify (λ s. record s { live = erase iid s.live })
    db ← gets (λ s. s.db)
    commit (destroyed_db iid db)
    pure iid
