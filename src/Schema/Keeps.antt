-- ===== src/Schema/Keeps.antt =====
-- The invariant of the tables is kept by every change that a request may make (spikes/engine/kladosd.py).
use mathlib.Core.Path.{subst}
use klados.Base.{
  String, ◌≡◌, refl, sym, ap, ◌∙◌, Option, none, some, List, [], ◌∷◌, ◌++◌, arith, All-map, is_some,
  ≟_self, ≟_iff,
}
use klados.Base.Result.{Result, ok, err}
use klados.Schema.{
  Db, Project, Run, Snapshot, Instance, find, update, run_is, snapshot_is, instance_is, insert_row,
  insert_run, insert_snapshot, insert_instance, new_run_db, new_snapshot_db, new_instance_db,
  destroyed_db,
}
use klados.Schema.Change.{
  Children, done, child, Change, nothing, project, run, snapshot, fork, destroy,
}
use klados.Schema.Rows.{
  find-passes, find-append_some, find-snoc, find-snoc_new, All-find, All-snoc, All-update,
  All-update_to, All-both,
}
use klados.Schema.Integrity.{
  IsConsistent, InRuns, Under, Under-append, IsForest-snoc, UniqueInstances-snoc,
  UniqueInstances-update, only_row,
}

pub inserted {ℓ} :
    {A : Type ℓ} (o : Option A) (x : A) (xs ys : List A)
    → insert_row (is_some o) x xs ≡ ok ys
    → (o ≡ none) × (ys ≡ xs ++ x ∷ [])
inserted none x xs ys e = (refl, ground arith)
inserted (some y) x xs ys e = ground arith

with_run :
    (r : Run) (db : Db) → IsConsistent db → IsConsistent (record db { runs = db.runs ++ r ∷ [] })
with_run r db c = record {
  snapshot_runs =
      All-map _ _ db.snapshots (λ s. find-append_some (run_is s.run_id) db.runs (r ∷ []))
        c.snapshot_runs;
  instance_runs =
      All-map _ _ db.instances (λ i. find-append_some (run_is i.run_id) db.runs (r ∷ []))
        c.instance_runs;
  forest = c.forest;
  unique = c.unique;
  lineage = c.lineage;
}

with_instance :
    (i : Instance) (db : Db)
    → IsConsistent db
    → find (instance_is i.id) db.instances ≡ none
    → InRuns db.runs i.run_id
    → Under i.snapshot_id i.run_id db.snapshots
    → IsConsistent (record db { instances = db.instances ++ i ∷ [] })
with_instance i db c new r u = record {
  snapshot_runs = c.snapshot_runs;
  instance_runs = All-snoc _ db.instances i c.instance_runs r;
  forest = c.forest;
  unique = UniqueInstances-snoc db.instances i c.unique new;
  lineage = All-snoc _ db.instances i c.lineage u;
}

with_snapshot :
    (s : Snapshot) (db : Db)
    → IsConsistent db
    → find (snapshot_is s.id) db.snapshots ≡ none
    → InRuns db.runs s.run_id
    → Under s.parent_id s.run_id db.snapshots
    → IsConsistent (record db { snapshots = db.snapshots ++ s ∷ [] })
with_snapshot s db c new r u = record {
  snapshot_runs = All-snoc _ db.snapshots s c.snapshot_runs r;
  instance_runs = c.instance_runs;
  forest = IsForest-snoc [] db.snapshots s c.forest u new;
  unique = c.unique;
  lineage =
      All-map _ _ db.instances (λ i. Under-append i.snapshot_id i.run_id db.snapshots (s ∷ []))
        c.lineage;
}

-- An instance moves on to a snapshot of its run.
moved :
    (s : Snapshot) (iid : String) (row : Instance) (db : Db)
    → IsConsistent db
    → find (snapshot_is s.id) db.snapshots ≡ some s
    → find (instance_is iid) db.instances ≡ some row
    → s.run_id ≡ row.run_id
    → IsConsistent (record db {
      instances = update (instance_is iid) (λ i. record i { snapshot_id = some s.id }) db.instances;
    })
moved s iid row db c here found same = record {
  snapshot_runs = c.snapshot_runs;
  instance_runs = All-update _ (instance_is iid) _ db.instances (λ i r _. r) c.instance_runs;
  forest = c.forest;
  unique = UniqueInstances-update (instance_is iid) _ (λ i. refl) db.instances c.unique;
  lineage =
      All-update_to _ _ (instance_is iid) _ db.instances (λ i h. h.0)
        (λ i h hit. (s, here, same ∙ sym (h.1 hit)))
        (All-both _ _ db.instances c.lineage (only_row iid db.instances row c.unique found));
}

destroyed_db-IsConsistent :
    (iid : String) (db : Db) → IsConsistent db → IsConsistent (destroyed_db iid db)
unfolding destroyed_db
destroyed_db-IsConsistent iid db c = record {
  snapshot_runs = c.snapshot_runs;
  instance_runs = All-update _ (instance_is iid) _ db.instances (λ i r _. r) c.instance_runs;
  forest = c.forest;
  unique = UniqueInstances-update (instance_is iid) _ (λ i. refl) db.instances c.unique;
  lineage = All-update _ (instance_is iid) _ db.instances (λ i u _. u) c.lineage;
}

-- A step after an insertion: it runs on the table with the row, and the row's key was not taken.
after_insert {ℓ κ} :
    {A : Type ℓ} {B : Type κ} (o : Option A) (x : A) (xs : List A) (k : List A → Result B) (b : B)
    → (elim (insert_row (is_some o) x xs) [ err e ↦ err e | ok ys ↦ k ys ]) ≡ ok b
    → (o ≡ none) × (k (xs ++ x ∷ []) ≡ ok b)
after_insert none x xs k b e = (refl, e)
after_insert (some y) x xs k b e = cc

ok_inj {ℓ} : {A : Type ℓ} {a b : A} → ok a ≡ ok b → b ≡ a
ok_inj p = cc

pub new_run_inv :
    (r : Run) (i : Instance) (db db' : Db)
    → new_run_db r i db ≡ ok db'
    → (find (instance_is i.id) db.instances ≡ none)
      × (db' ≡ record db { runs = db.runs ++ r ∷ []; instances = db.instances ++ i ∷ [] })
unfolding new_run_db insert_run insert_instance
new_run_inv r i db db' e =
    let first = after_insert (find (run_is r.id) db.runs) r db.runs _ db' e in
    let both = after_insert (find (instance_is i.id) db.instances) i db.instances _ db' first.1 in
    (both.0, ok_inj both.1)

-- the run's key was not taken
pub new_run_unused :
    (r : Run) (i : Instance) (db db' : Db)
    → new_run_db r i db ≡ ok db'
    → find (run_is r.id) db.runs ≡ none
unfolding new_run_db insert_run insert_instance
new_run_unused r i db db' e = (after_insert (find (run_is r.id) db.runs) r db.runs _ db' e).0

pub new_snapshot_inv :
    (s : Snapshot) (iid : String) (db db' : Db)
    → new_snapshot_db s iid db ≡ ok db'
    → (find (snapshot_is s.id) db.snapshots ≡ none)
      × (db' ≡ record db {
        snapshots = db.snapshots ++ s ∷ [];
        instances =
            update (instance_is iid) (λ i. record i { snapshot_id = some s.id }) db.instances;
      })
unfolding new_snapshot_db insert_snapshot
new_snapshot_inv s iid db db' e =
    let added = after_insert (find (snapshot_is s.id) db.snapshots) s db.snapshots _ db' e in
    (added.0, ok_inj added.1)

pub new_instance_inv :
    (i : Instance) (db mid : Db)
    → new_instance_db i db ≡ ok mid
    → (find (instance_is i.id) db.instances ≡ none)
      × (mid ≡ record db { instances = db.instances ++ i ∷ [] })
unfolding new_instance_db insert_instance
new_instance_inv i db mid e =
    let added = after_insert (find (instance_is i.id) db.instances) i db.instances _ mid e in
    (added.0, ok_inj added.1)

new_run-IsConsistent :
    (r : Run) (i : Instance) (db db' : Db)
    → i.run_id ≡ r.id
    → i.snapshot_id ≡ none
    → new_run_db r i db ≡ ok db'
    → IsConsistent db
    → IsConsistent db'
new_run-IsConsistent r i db db' same root e c =
    subst IsConsistent (sym (new_run_inv r i db db' e).1) (
      with_instance i (record db { runs = db.runs ++ r ∷ [] }) (with_run r db c)
        (new_run_inv r i db db' e).0 (find-snoc (run_is i.run_id) db.runs r (rw same (≟_self r.id)))
        (rw root tt))

new_snapshot-IsConsistent :
    (iid : String) (row : Instance) (s : Snapshot) (db db' : Db)
    → find (instance_is iid) db.instances ≡ some row
    → s.run_id ≡ row.run_id
    → s.parent_id ≡ row.snapshot_id
    → new_snapshot_db s iid db ≡ ok db'
    → IsConsistent db
    → IsConsistent db'
new_snapshot-IsConsistent iid row s db db' found same parent e c =
    subst IsConsistent (sym (new_snapshot_inv s iid db db' e).1) (
      moved s iid row (record db { snapshots = db.snapshots ++ s ∷ [] })
        (with_snapshot s db c (new_snapshot_inv s iid db db' e).0
          (subst (InRuns db.runs) (sym same)
            (All-find _ (instance_is iid) db.instances row c.instance_runs found))
          (rw (same, parent) (All-find _ (instance_is iid) db.instances row c.lineage found)))
        (find-snoc_new (snapshot_is s.id) db.snapshots s (new_snapshot_inv s iid db db' e).0
          (≟_self s.id))
        found same)

Children-IsConsistent :
    (snap : Snapshot) (db' db : Db)
    → find (snapshot_is snap.id) db.snapshots ≡ some snap
    → Children snap db' db
    → IsConsistent db
    → IsConsistent db'
Children-IsConsistent snap db' db found (done _ e) c = subst IsConsistent (sym e) c
Children-IsConsistent snap db' db found (child _ mid i r s st e rest) c =
    Children-IsConsistent snap db' mid
      (ap (λ (d : Db). find (snapshot_is snap.id) d.snapshots) (new_instance_inv i db mid e).1
        ∙ found)
      rest
      (subst IsConsistent (sym (new_instance_inv i db mid e).1) (
        with_instance i db c (new_instance_inv i db mid e).0
          (subst (InRuns db.runs) (sym r)
            (All-find _ (snapshot_is snap.id) db.snapshots snap c.snapshot_runs found))
          (rw s (snap, found, sym r))))

with_projects :
    (ps : List Project) (db : Db) → IsConsistent db → IsConsistent (record db { projects = ps })
with_projects ps db c = record {
  snapshot_runs = c.snapshot_runs;
  instance_runs = c.instance_runs;
  forest = c.forest;
  unique = c.unique;
  lineage = c.lineage;
}

-- Every change that a request may make keeps the tables consistent.
pub Change-IsConsistent :
    (pid : String) (db db' : Db) → Change pid db db' → IsConsistent db → IsConsistent db'
Change-IsConsistent pid db db' (nothing e) c = subst IsConsistent (sym e) c
Change-IsConsistent pid db db' (project p ps e q) c =
    subst IsConsistent (sym q) (with_projects ps db c)
Change-IsConsistent pid db db' (run r i own same root e) c =
    new_run-IsConsistent r i db db' same root e c
Change-IsConsistent pid db db' (snapshot iid row s own found same parent e) c =
    new_snapshot-IsConsistent iid row s db db' found same parent e c
Change-IsConsistent pid db db' (fork sid s own found more) c =
    Children-IsConsistent s db' db
      (subst (λ v. find (snapshot_is v) db.snapshots ≡ some s)
        (sym ((≟_iff s.id sid).0 (find-passes (snapshot_is sid) db.snapshots s found))) found)
      more c
Change-IsConsistent pid db db' (destroy iid own e) c =
    subst IsConsistent (sym e) (destroyed_db-IsConsistent iid db c)
