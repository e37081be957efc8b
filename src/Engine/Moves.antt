-- ===== src/Engine/Moves.antt =====
-- Every operation of the daemon makes at most the change of the tables that the specification
-- allows it.
use klados.Base.{
  ℕ, zero, suc, ◌+◌, String, ◌≡◌, refl, sym, ◌∙◌, ap, true, Option, none, some, List, arith, ≟_iff,
  inl, inr, Bool-cases,
}
use klados.Agent.{forked_msg}
use klados.Base.Result.{ok}
use klados.Schema.{
  Db, Snapshot, Instance, running, find, instance_is, Table, project_of, new_instance_db,
  destroyed_db,
}
use klados.Schema.Change.{
  Children, Change, nothing, project, run, snapshot, fork, destroy, done, child,
}
use klados.Engine.{Host, Exec, pure, raise, ◌>>=◌}
use klados.Engine.Logic.{
  Leaves, leaves_rules, Leaves-pure, Leaves-or_raise, Yields, Yields-pure, Yields-skip, Yields-lift,
  Yields-bind, Moves-Yields, Leaves-bind, Leaves-gets, Leaves-modify, Leaves-new_id, Leaves-now,
  Leaves-new_key, Moves, Moves-skip, Moves-query, Moves-lift, Moves-or_raise, Moves-commit,
}
use klados.Engine.Untouched.{
  ask-Leaves, quiesce-Leaves, wait_agent-Leaves, boot_vm-Leaves, pause-Leaves, resume-Leaves,
  write_snapshot-Leaves, seal_scratch-Leaves, chunk-Leaves, reconstruct-Leaves,
}
use klados.Engine.Runs.{
  Child, branch_name, create_run, take_image, snapshot_instance, tell_forked, fork_child,
  fork_children, fork_snapshot, destroy_instance,
}
use klados.Engine.Accounts.{create_project, require_owner, owns}

module _ (h : Host) (pid : String) (db : Db) where
  -- the change that has not happened yet, where a handler raises
  raised : Change pid db db
  raised = nothing refl

  pub create_run-Moves : (image : String) → Moves db (Change pid db) (create_run h pid image)
  unfolding create_run
  create_run-Moves image = Moves-skip db (Change pid db) _ _ raised (Leaves-new_id h) λ rid.
      Moves-skip db (Change pid db) _ _ raised (Leaves-new_id h) λ iid.
        Moves-skip db (Change pid db) _ _ raised (Leaves-now h) λ t.
          Moves-skip db (Change pid db) _ _ raised (Leaves-now h) λ t'.
            Moves-query db (Change pid db) (λ d. d) _
              (Moves-lift db (Change pid db) _ _ raised λ db' e.
                Moves-commit db (Change pid db) db' _ (run _ _ refl refl refl e)
                  (search (leaves_rules, boot_vm-Leaves, wait_agent-Leaves)))

  take_image-Leaves : (iid sid : String) → Leaves (take_image h iid sid)
  unfolding take_image
  take_image-Leaves iid sid = Leaves-bind _ _ (Leaves-modify _ (λ s. refl)) λ _.
      search
        (
          leaves_rules, quiesce-Leaves, pause-Leaves, write_snapshot-Leaves, seal_scratch-Leaves,
          resume-Leaves, chunk-Leaves,
        )
        depth 24

  pub snapshot_instance-Moves :
      (iid label : String)
      → project_of Table.instances iid db ≡ some pid
      → Moves db (Change pid db) (snapshot_instance h iid label)
  unfolding snapshot_instance
  snapshot_instance-Moves iid label owned =
      Moves-skip db (Change pid db) _ _ raised (Leaves-gets _) λ live.
        Moves-skip db (Change pid db) _ _ raised (Leaves-or_raise _ _) λ vm.
          Moves-query db (Change pid db) (λ d. find (instance_is iid) d.instances) _
            (Moves-or_raise db (Change pid db) _ _ _ raised λ row found.
              Moves-skip db (Change pid db) _ _ raised (Leaves-new_id h) λ sid.
                Moves-skip db (Change pid db) _ _ raised (take_image-Leaves iid sid) λ size.
                  Moves-skip db (Change pid db) _ _ raised (Leaves-now h) λ t.
                    Moves-query db (Change pid db) (λ d. d) _
                      (Moves-lift db (Change pid db) _ _ raised λ db' e.
                        Moves-commit db (Change pid db) db' _
                          (snapshot iid row _ owned found refl refl e) (search leaves_rules)))

  tell_forked-Leaves : (iid : String) (i n : ℕ) → Leaves (tell_forked h iid i n)
  unfolding tell_forked
  tell_forked-Leaves iid i n = Leaves-bind _ _ (wait_agent-Leaves h iid) λ _.
      Leaves-bind _ _ (Leaves-now h) λ t. record {
        at = λ s. ground (arith, (ask-Leaves h iid (forked_msg i n t (branch_name i n))).at s);
      }

  fork_child-Leaves : (snap : Snapshot) (i n : ℕ) (d : Db) → Leaves (fork_child h snap i n d)
  unfolding fork_child
  fork_child-Leaves snap i n d = search (leaves_rules, boot_vm-Leaves, tell_forked-Leaves) depth 12

  fork_children-Leaves :
      (left : ℕ) (snap : Snapshot) (i n : ℕ) (d : Db) → Leaves (fork_children h left snap i n d)
  unfolding fork_children
  fork_children-Leaves zero snap i n d = search leaves_rules
  fork_children-Leaves (suc left) snap i n d =
      Leaves-bind _ _ (fork_child-Leaves snap i n d) λ one.
        Leaves-bind _ _ (fork_children-Leaves left snap (i + 1) n one.0) λ rest. Leaves-pure _

  -- the row that a round adds to the connection's tables
  record Added (snap : Snapshot) (d d' : Db) : Type 0 where
    row : Instance
    in_run : row.run_id ≡ snap.run_id
    under : row.snapshot_id ≡ some snap.id
    runs : row.state ≡ running
    added : new_instance_db row d ≡ ok d'

  fork_child-Yields :
      (snap : Snapshot) (i n : ℕ) (d : Db)
      → Yields (λ (one : Db × Child). Added snap d one.0) (fork_child h snap i n d)
  unfolding fork_child
  fork_child-Yields snap i n d = Yields-skip _ _ _ λ iid. Yields-skip _ _ _ λ booted.
      Yields-skip _ _ _ λ branch. Yields-skip _ _ _ λ t. Yields-lift _ _ _ λ d' e.
        Yields-pure _ _ (record { row = _; in_run = refl; under = refl; runs = refl; added = e })

  fork_children-Yields :
      (left : ℕ) (snap : Snapshot) (i n : ℕ) (d : Db)
      → Yields (λ (all : Db × List Child). Children snap all.0 d) (fork_children h left snap i n d)
  unfolding fork_children
  fork_children-Yields zero snap i n d = Yields-pure _ _ (done d refl)
  fork_children-Yields (suc left) snap i n d =
      Yields-bind _ (λ (one : Db × Child). Added snap d one.0) _ _ (fork_child-Yields snap i n d)
        λ one a.
          Yields-bind _ (λ (all : Db × List Child). Children snap all.0 one.0) _ _
            (fork_children-Yields left snap (i + 1) n one.0)
            λ rest c. Yields-pure _ _ (child d one.0 a.row a.in_run a.under a.runs a.added c)

  pub fork_snapshot-Moves :
      (sid : String) (n : ℕ)
      → project_of Table.snapshots sid db ≡ some pid
      → Moves db (Change pid db) (fork_snapshot h sid n)
  unfolding fork_snapshot
  fork_snapshot-Moves sid n owned =
      Moves-query db (Change pid db) (λ d. d) _
        (Moves-or_raise db (Change pid db) _ _ _ raised λ snap found.
          Moves-skip db (Change pid db) _ _ raised (reconstruct-Leaves h sid) λ _.
            Moves-Yields db (Change pid db) (λ (all : Db × List Child). Children snap all.0 db) _ _
              raised (fork_children-Leaves n snap 0 n db) (fork_children-Yields n snap 0 n db)
              λ all c.
                Moves-commit db (Change pid db) all.0 _ (fork sid snap owned found c)
                  (Leaves-pure _))

  pub destroy_instance-Moves :
      (iid : String)
      → project_of Table.instances iid db ≡ some pid
      → Moves db (Change pid db) (destroy_instance h iid)
  unfolding destroy_instance
  destroy_instance-Moves iid owned =
      Moves-skip db (Change pid db) _ _ raised (Leaves-modify _ (λ s. refl)) λ _.
        Moves-query db (Change pid db) (λ d. d) _
          (Moves-commit db (Change pid db) (destroyed_db iid db) _ (destroy iid owned refl)
            (Leaves-pure _))

  pub create_project-Moves : (name : String) → Moves db (Change pid db) (create_project h name)
  unfolding create_project
  create_project-Moves name = Moves-skip db (Change pid db) _ _ raised (Leaves-new_key h) λ key.
      Moves-skip db (Change pid db) _ _ raised (Leaves-new_id h) λ id.
        Moves-skip db (Change pid db) _ _ raised (Leaves-now h) λ t.
          Moves-query db (Change pid db) (λ d. d) _
            (Moves-lift db (Change pid db) _ _ raised λ projects e.
              Moves-commit db (Change pid db) _ _ (project _ projects e refl) (Leaves-pure _))

  owns-some : (o : Option String) → owns pid o ≡ true → o ≡ some pid
  unfolding owns
  owns-some none e = cc
  owns-some (some owner) e = ap some ((≟_iff owner pid).0 e)

  -- what follows `_require_owner` runs only if the project owns the row
  pub Moves-owner :
      {B : Type 0} (table : Table) (val : String) (f : Unit {0} → Exec B)
      → (project_of table val db ≡ some pid → Moves db (Change pid db) (f tt))
      → Moves db (Change pid db) (require_owner pid table val >>= f)
  unfolding require_owner ◌>>=◌
  Moves-owner table val f k = record {
    at = λ s e. elim (Bool-cases (owns pid (project_of table val s.db))) [
      | inl mine ↦
          simp mine
            ((k (sym (ap (λ (d : Db). project_of table val d) e) ∙ owns-some _ mine)).at s e)
      | inr other ↦ simp other (rw e raised)
    ];
  }

pub require_owner-Leaves :
    (pid : String) (table : Table) (val : String) → Leaves (require_owner pid table val)
unfolding require_owner pure raise
require_owner-Leaves pid table val = record { at = λ s. ground arith }
