-- ===== src/Schema/Integrity.antt =====
-- The invariant of the tables: every reference leads to a row of the same run, keys are unique, and
-- the snapshots of a run form a forest.
use mathlib.Core.List.{append_assoc, append-nil}
use klados.Base.{
  String, ◌≡◌, refl, sym, ap, ◌∙◌, Bool, true, false, Option, none, some, List, [], ◌∷◌, ◌++◌, All,
  All-map, ◌≟◌, ≟_iff, ≟_self, inl, inr, Bool-cases, is_some,
}
use klados.Schema.{Db, Run, Snapshot, Instance, find, update, run_is, snapshot_is, instance_is}
use mathlib.Core.Path.{subst}
use klados.Schema.Rows.{find-none_head, find-none_tail, find-none-All, find-append, find-snoc_other}

-- A reference to a snapshot of the run `rid` among `snaps`, or none.
abbrev pub Under : Option String → String → List Snapshot → Type 0
Under none rid snaps = Unit
Under (some sid) rid snaps =
    (s : Snapshot) × (find (snapshot_is sid) snaps ≡ some s) × (s.run_id ≡ rid)

-- In order of insertion: each snapshot has a new id, and its parent is an earlier one of its run.
abbrev pub IsForest : List Snapshot → List Snapshot → Type 0
IsForest earlier [] = Unit
IsForest earlier (s ∷ rest) =
    Under s.parent_id s.run_id earlier
    × (find (snapshot_is s.id) earlier ≡ none)
    × IsForest (earlier ++ s ∷ []) rest

abbrev pub UniqueInstances : List Instance → Type 0
UniqueInstances [] = Unit
UniqueInstances (i ∷ rest) = (find (instance_is i.id) rest ≡ none) × UniqueInstances rest

abbrev pub InRuns : List Run → String → Type 0
InRuns runs rid = is_some (find (run_is rid) runs) ≡ true

pub record IsConsistent (db : Db) : Type 0 where
  pub snapshot_runs : All (λ (s : Snapshot). InRuns db.runs s.run_id) db.snapshots
  pub instance_runs : All (λ (i : Instance). InRuns db.runs i.run_id) db.instances
  pub forest : IsForest [] db.snapshots
  pub unique : UniqueInstances db.instances
  pub lineage : All (λ (i : Instance). Under i.snapshot_id i.run_id db.snapshots) db.instances

pub Under-append :
    (o : Option String) (rid : String) (xs ys : List Snapshot)
    → Under o rid xs
    → Under o rid (xs ++ ys)
Under-append none rid xs ys u = tt
Under-append (some sid) rid xs ys (s, e, r) = (s, find-append (snapshot_is sid) xs ys s e, r)

pub IsForest-snoc :
    (earlier xs : List Snapshot) (s : Snapshot)
    → IsForest earlier xs
    → Under s.parent_id s.run_id (earlier ++ xs)
    → find (snapshot_is s.id) (earlier ++ xs) ≡ none
    → IsForest earlier (xs ++ s ∷ [])
IsForest-snoc earlier [] s f u e = (rw append-nil at u, rw append-nil at e, tt)
IsForest-snoc earlier (x ∷ xs) s f u e = (
  f.0,
  f.1,
  IsForest-snoc (earlier ++ x ∷ []) xs s f.2 (subst (Under s.parent_id s.run_id) moved u)
      (ap (find (snapshot_is s.id)) (sym moved) ∙ e),
)
  where
    moved : earlier ++ x ∷ xs ≡ (earlier ++ x ∷ []) ++ xs
    moved = sym (append_assoc earlier (x ∷ []) xs)

pub UniqueInstances-snoc :
    (xs : List Instance) (i : Instance)
    → UniqueInstances xs
    → find (instance_is i.id) xs ≡ none
    → UniqueInstances (xs ++ i ∷ [])
unfolding find
UniqueInstances-snoc [] i u e = (refl, tt)
UniqueInstances-snoc (x ∷ xs) i u e = (
  find-snoc_other (instance_is x.id) xs i u.0
      (≟-false i.id x.id (find-none_head (instance_is i.id) x xs e)),
  UniqueInstances-snoc xs i u.1 (find-none_tail (instance_is i.id) x xs e),
)
  where
    ≟-false : (a b : String) → (b ≟ a) ≡ false → (a ≟ b) ≡ false
    ≟-false a b h = elim (Bool-cases (a ≟ b)) [
      | inl yes_ ↦ cc (h, ap (λ c. c ≟ a) ((≟_iff a b).0 yes_), ≟_self a)
      | inr no_ ↦ no_
    ]

-- An update that keeps the ids keeps them unique.
module _ (p : Instance → Bool) (f : Instance → Instance)
    (keeps : (i : Instance) → (f i).id ≡ i.id) where
  pub absent-update :
      (v : String) (xs : List Instance)
      → find (instance_is v) xs ≡ none
      → find (instance_is v) (update p f xs) ≡ none
  unfolding find update
  absent-update v [] e = refl
  absent-update v (x ∷ xs) e = elim (Bool-cases (p x)) [
    | inl hit ↦
        rw hit (rw (keeps x, miss) (absent-update v xs (find-none_tail (instance_is v) x xs e)))
    | inr none_ ↦ rw (none_, miss) (absent-update v xs (find-none_tail (instance_is v) x xs e))
  ]
    where
      miss : instance_is v x ≡ false
      miss = find-none_head (instance_is v) x xs e

  pub UniqueInstances-update :
      (xs : List Instance) → UniqueInstances xs → UniqueInstances (update p f xs)
  unfolding find update
  UniqueInstances-update [] u = tt
  UniqueInstances-update (x ∷ xs) u = elim (Bool-cases (p x)) [
    | inl hit ↦ rw (hit, keeps x) (absent-update x.id xs u.0, UniqueInstances-update xs u.1)
    | inr miss ↦ rw miss (absent-update x.id xs u.0, UniqueInstances-update xs u.1)
  ]

-- The row that a query by id finds is the only one with the id.
pub only_row :
    (iid : String) (xs : List Instance) (row : Instance)
    → UniqueInstances xs
    → find (instance_is iid) xs ≡ some row
    → All (λ (i : Instance). instance_is iid i ≡ true → i.run_id ≡ row.run_id) xs
unfolding find
only_row iid [] row u e = tt
only_row iid (x ∷ xs) row u e = elim (Bool-cases (instance_is iid x)) [
  | inl hit ↦
      (λ h. ap (λ (i : Instance). i.run_id) (first hit), All-map _ _ xs others (others_differ hit))
  | inr miss ↦ (λ h. cc, only_row iid xs row u.1 (rw miss at e))
]
  where
    some_inj : {b c : Instance} → some b ≡ some c → b ≡ c
    some_inj q = cc

    first : instance_is iid x ≡ true → x ≡ row
    first hit = some_inj (rw hit at e)

    others_differ : instance_is iid x ≡ true → All (λ (i : Instance). instance_is iid i ≡ false) xs
    others_differ hit =
        find-none-All (instance_is iid) xs
          (ap (λ v. find (instance_is v) xs) (sym ((≟_iff x.id iid).0 hit)) ∙ u.0)

    others :
        (i : Instance)
        → instance_is iid i ≡ false
        → instance_is iid i ≡ true
        → i.run_id ≡ row.run_id
    others i no_ yes_ = cc
