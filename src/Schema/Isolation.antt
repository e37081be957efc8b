-- ===== src/Schema/Isolation.antt =====
-- What a request of one project leaves as it is: the runs of every other, and their snapshots and
-- instances (the queries of spikes/engine/kladosd.py).
use klados.Base.{
  ◌≡◌, refl, sym, ap, ◌∙◌, Bool, true, false, String, none, some, List, [], ◌∷◌, ◌++◌, All, All-map,
  ◌≟◌, ≟_iff, ≟_self, inl, inr, Bool-cases, Option-cases, if◌then◌else◌,
}
use klados.Base.Result.{ok}
use klados.Schema.{
  Db, Run, Snapshot, Instance, find, select, update, run_is, snapshot_is, instance_is, Table,
  project_of, project_of_run, project_of_opt, run_of_snapshot, run_of_instance, new_run_db,
  destroyed_db, destroyed,
}
use klados.Schema.Change.{
  Change, nothing, project, run, snapshot, fork, destroy, Children, done, child,
}
use klados.Schema.Keeps.{new_run_inv, new_run_unused, new_snapshot_inv, new_instance_inv}
use klados.Schema.Integrity.{IsConsistent, only_row}

module _ {A : Type 0} (p : A → Bool) where
  select-snoc : (xs : List A) (x : A) → p x ≡ false → select p (xs ++ x ∷ []) ≡ select p xs
  unfolding select
  select-snoc [] x h = rw h refl
  select-snoc (y ∷ xs) x h = ap (λ z. if p y then y ∷ z else z) (select-snoc xs x h)

  select-update :
      (q : A → Bool) (f : A → A) (xs : List A)
      → All (λ x. q x ≡ true → (p x ≡ false) × (p (f x) ≡ false)) xs
      → select p (update q f xs) ≡ select p xs
  unfolding select update
  select-update q f [] h = refl
  select-update q f (x ∷ xs) h = elim (Bool-cases (q x)) [
    | inl hit ↦ let (before, after) = h.0 hit in rw (hit, before, after) (select-update q f xs h.1)
    | inr miss ↦ rw miss (ap (λ z. if p x then x ∷ z else z) (select-update q f xs h.1))
  ]

-- What one run shows of itself, and one project of its runs.
pub record Unseen (other rid : String) (db db' : Db) : Type 0 where
  pub own_runs :
      select (λ (r : Run). r.project_id ≟ other) db'.runs
      ≡ select (λ (r : Run). r.project_id ≟ other) db.runs
  pub snapshots :
      select (λ (s : Snapshot). s.run_id ≟ rid) db'.snapshots
      ≡ select (λ (s : Snapshot). s.run_id ≟ rid) db.snapshots
  pub instances :
      select (λ (i : Instance). i.run_id ≟ rid) db'.instances
      ≡ select (λ (i : Instance). i.run_id ≟ rid) db.instances

Unseen-same : (other rid : String) (db db' : Db) → db' ≡ db → Unseen other rid db db'
Unseen-same other rid db db' e = record {
  own_runs = ap (λ (d : Db). select (λ (r : Run). r.project_id ≟ other) d.runs) e;
  snapshots = ap (λ (d : Db). select (λ (s : Snapshot). s.run_id ≟ rid) d.snapshots) e;
  instances = ap (λ (d : Db). select (λ (i : Instance). i.run_id ≟ rid) d.instances) e;
}

-- the two runs are of different projects, so they are two
two_runs :
    (a b pid other : String) (db : Db)
    → project_of_run a db ≡ some pid
    → project_of_run b db ≡ some other
    → (other ≟ pid) ≡ false
    → (a ≟ b) ≡ false
two_runs a b pid other db p q ne = elim (Bool-cases (a ≟ b)) [
  | inl eq ↦
      let one : some pid ≡ some other =
        sym p ∙ ap (λ r. project_of_run r db) ((≟_iff a b).0 eq) ∙ q in
      absurd (clash one)
  | inr no_eq ↦ no_eq
]
  where
    clash : some pid ≡ some other → ⊥
    clash one = cc (one, ne, ≟_self other)

module _ (pid other rid : String) (ne : (other ≟ pid) ≡ false) where
  -- a row of a run of the project, and the instances with one id
  run_of_row :
      (iid : String) (row : Instance) (db : Db)
      → project_of Table.instances iid db ≡ some pid
      → find (instance_is iid) db.instances ≡ some row
      → project_of_run row.run_id db ≡ some pid
  unfolding project_of run_of_instance project_of_opt
  run_of_row iid row db owned found =
      let its_run : run_of_instance iid db ≡ some row.run_id = rw (run_of_instance, found) refl in
      ap (λ o. project_of_opt o db) (sym its_run) ∙ owned

  row_of :
      (iid : String) (db : Db)
      → project_of Table.instances iid db ≡ some pid
      → (row : Instance) × (find (instance_is iid) db.instances ≡ some row)
  unfolding project_of run_of_instance project_of_opt
  row_of iid db owned = elim (Option-cases (find (instance_is iid) db.instances)) [
    | inl absent ↦
        let no_run : run_of_instance iid db ≡ none = rw (run_of_instance, absent) refl in
        absurd (clash (ap (λ o. project_of_opt o db) (sym no_run) ∙ owned))
    | inr there ↦ there
  ]
    where
      clash : none ≡ some pid → ⊥
      clash q = cc

  run_of_snap :
      (sid : String) (row : Snapshot) (db : Db)
      → project_of Table.snapshots sid db ≡ some pid
      → find (snapshot_is sid) db.snapshots ≡ some row
      → project_of_run row.run_id db ≡ some pid
  unfolding project_of run_of_snapshot project_of_opt
  run_of_snap sid row db owned found =
      let its_run : run_of_snapshot sid db ≡ some row.run_id = rw (run_of_snapshot, found) refl in
      ap (λ o. project_of_opt o db) (sym its_run) ∙ owned

  updated_elsewhere :
      (iid : String) (row : Instance) (f : Instance → Instance) (db : Db)
      → ((i : Instance) → (f i).run_id ≡ i.run_id)
      → IsConsistent db
      → find (instance_is iid) db.instances ≡ some row
      → (row.run_id ≟ rid) ≡ false
      → select (λ (i : Instance). i.run_id ≟ rid) (update (instance_is iid) f db.instances)
        ≡ select (λ (i : Instance). i.run_id ≟ rid) db.instances
  updated_elsewhere iid row f db keeps c found apart =
      select-update (λ (i : Instance). i.run_id ≟ rid) (instance_is iid) f db.instances
        (All-map _ _ db.instances
          (λ i only hit.
            let here : (i.run_id ≟ rid) ≡ false = ap (λ r. r ≟ rid) (only hit) ∙ apart in
            (here, ap (λ r. r ≟ rid) (keeps i) ∙ here))
          (only_row iid db.instances row c.unique found))

  Unseen-Children :
      (snap : Snapshot) (db' db : Db)
      → (snap.run_id ≟ rid) ≡ false
      → Children snap db' db
      → Unseen other rid db db'
  Unseen-Children snap db' db apart (done _ e) = Unseen-same other rid db db' e
  Unseen-Children snap db' db apart (child _ mid i r s st e rest) =
      let added = (new_instance_inv i db mid e).1 in
      let u = Unseen-Children snap db' mid apart rest in
      let first = Unseen-same other rid _ mid added in
      record {
        own_runs = u.own_runs ∙ first.own_runs;
        snapshots = u.snapshots ∙ first.snapshots;
        instances =
            u.instances
            ∙ first.instances
            ∙ select-snoc (λ (j : Instance). j.run_id ≟ rid) db.instances i
                (ap (λ z. z ≟ rid) r ∙ apart);
      }

  -- the run is there, and a new one has another id
  new_run_apart :
      (r : Run) (i : Instance) (db db' : Db)
      → new_run_db r i db ≡ ok db'
      → project_of_run rid db ≡ some other
      → (r.id ≟ rid) ≡ false
  unfolding project_of_run
  new_run_apart r i db db' e own = elim (Bool-cases (r.id ≟ rid)) [
    | inl eq ↦
        let gone : find (run_is rid) db.runs ≡ none =
          ap (λ v. find (run_is v) db.runs) (sym ((≟_iff r.id rid).0 eq))
          ∙ new_run_unused r i db db' e in
        absurd (clash (rw (project_of_run, gone) at own))
    | inr no_eq ↦ no_eq
  ]
    where
      clash : none ≡ some other → ⊥
      clash q = cc

  pub Change-Unseen :
      (db db' : Db)
      → IsConsistent db
      → project_of_run rid db ≡ some other
      → Change pid db db'
      → Unseen other rid db db'
  unfolding destroyed_db
  Change-Unseen db db' c own (nothing e) = Unseen-same other rid db db' e
  Change-Unseen db db' c own (project p projects _ e) =
      let u = Unseen-same other rid (record db { projects = projects }) db' e in
      record { own_runs = u.own_runs; snapshots = u.snapshots; instances = u.instances }
  Change-Unseen db db' c own (run r i mine in_r _ e) =
      let u = Unseen-same other rid _ db' (new_run_inv r i db db' e).1 in
      let away = new_run_apart r i db db' e own in
      record {
        own_runs =
            u.own_runs
            ∙ select-snoc (λ (q : Run). q.project_id ≟ other) db.runs r (not_mine r mine);
        snapshots = u.snapshots;
        instances =
            u.instances
            ∙ select-snoc (λ (j : Instance). j.run_id ≟ rid) db.instances i
                (ap (λ z. z ≟ rid) in_r ∙ away);
      }
    where
      not_mine : (r : Run) → r.project_id ≡ pid → (r.project_id ≟ other) ≡ false
      not_mine r mine = elim (Bool-cases (r.project_id ≟ other)) [
        | inl eq ↦ absurd (clash ((≟_iff r.project_id other).0 eq) mine)
        | inr no_eq ↦ no_eq
      ]
        where
          clash : r.project_id ≡ other → r.project_id ≡ pid → ⊥
          clash a b = cc (ne, ap (λ z. z ≟ pid) (sym a ∙ b), ≟_self pid)
  Change-Unseen db db' c own (snapshot iid row s owned found in_r _ e) =
      let apart = two_runs row.run_id rid pid other db (run_of_row iid row db owned found) own ne in
      let u = Unseen-same other rid _ db' (new_snapshot_inv s iid db db' e).1 in
      record {
        own_runs = u.own_runs;
        snapshots =
            u.snapshots
            ∙ select-snoc (λ (t : Snapshot). t.run_id ≟ rid) db.snapshots s
                (ap (λ z. z ≟ rid) in_r ∙ apart);
        instances =
            u.instances
            ∙ updated_elsewhere iid row (λ i. record i { snapshot_id = some s.id }) db (λ i. refl) c
                found apart;
      }
  Change-Unseen db db' c own (fork sid s owned found kids) =
      Unseen-Children s db' db
        (two_runs s.run_id rid pid other db (run_of_snap sid s db owned found) own ne) kids
  Change-Unseen db db' c own (destroy iid owned e) =
      let (row, found) = row_of iid db owned in
      let apart = two_runs row.run_id rid pid other db (run_of_row iid row db owned found) own ne in
      let u = Unseen-same other rid _ db' e in
      record {
        own_runs = u.own_runs;
        snapshots = u.snapshots;
        instances =
            u.instances
            ∙ updated_elsewhere iid row (λ i. record i { state = destroyed }) db (λ i. refl) c found
                apart;
      }
