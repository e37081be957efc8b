-- ===== src/Schema.antt =====
-- The tables of spikes/engine/kladosd.py (`init_db`) and the queries on them. A table is its rows in
-- the order in which they were inserted; every `id` is a PRIMARY KEY.
pub mod Change
pub mod Rows
pub mod Integrity
pub mod Keeps
pub mod Isolation
use klados.Base.{
  ℕ, ◌+◌, String, Bool, true, false, Option, none, some, List, [], ◌∷◌, ◌++◌, ◌≟◌, is_some, leb,
  if◌then◌else◌,
}
use klados.Base.Result.{Result, ok, err, Error, failure}

pub record Project : Type 0 where
  pub id : String
  pub name : String
  pub key_hash : String
  pub created_at : ℕ

pub record Run : Type 0 where
  pub id : String
  pub project_id : String
  pub image : String
  pub created_at : ℕ

-- `dir` is the directory in which `snap_path` and `mem_path` lie.
pub record Snapshot : Type 0 where
  pub id : String
  pub run_id : String
  pub parent_id : Option String
  pub label : String
  pub dir : String
  pub size_bytes : ℕ
  pub created_at : ℕ

pub data Status : Type 0 where
  running destroyed : Status

pub record Instance : Type 0 where
  pub id : String
  pub run_id : String
  pub snapshot_id : Option String
  pub state : Status
  pub branch : String
  pub created_at : ℕ

-- `vcpu` in the unit of the metering interval; `ram` in MiB times that unit (the code divides by 1024)
pub record Usage : Type 0 where
  pub project_id : String
  pub vcpu : ℕ
  pub ram : ℕ
  pub updated_at : ℕ

pub record Db : Type 0 where
  pub projects : List Project
  pub runs : List Run
  pub snapshots : List Snapshot
  pub instances : List Instance
  pub usage : List Usage

-- `SELECT … WHERE …` and `fetchone`
unfoldable pub find {ℓ} : {A : Type ℓ} → (A → Bool) → List A → Option A
find p [] = none
find p (x ∷ xs) = if p x then some x else find p xs

-- `SELECT … WHERE …` and `fetchall`
unfoldable pub select {ℓ} : {A : Type ℓ} → (A → Bool) → List A → List A
select p [] = []
select p (x ∷ xs) = let rest = select p xs in if p x then x ∷ rest else rest

-- `UPDATE … SET … WHERE …`
unfoldable pub update {ℓ} : {A : Type ℓ} → (A → Bool) → (A → A) → List A → List A
update p f [] = []
update p f (x ∷ xs) = (if p x then f x else x) ∷ update p f xs

abbrev pub run_is : String → Run → Bool
run_is v r = r.id ≟ v

abbrev pub snapshot_is : String → Snapshot → Bool
snapshot_is v s = s.id ≟ v

abbrev pub instance_is : String → Instance → Bool
instance_is v i = i.id ≟ v

-- `INSERT INTO … VALUES …`, which raises if the primary key is taken
abbrev pub insert_row {ℓ} : {A : Type ℓ} → Bool → A → List A → Result (List A)
insert_row taken x xs =
    if taken then err (failure "UNIQUE constraint failed") else ok (xs ++ x ∷ [])

unfoldable pub insert_run : Run → Db → Result (List Run)
insert_run r db = insert_row (is_some (find (run_is r.id) db.runs)) r db.runs

unfoldable pub insert_snapshot : Snapshot → Db → Result (List Snapshot)
insert_snapshot s db = insert_row (is_some (find (snapshot_is s.id) db.snapshots)) s db.snapshots

unfoldable pub insert_instance : Instance → Db → Result (List Instance)
insert_instance i db = insert_row (is_some (find (instance_is i.id) db.instances)) i db.instances

unfoldable pub insert_project : Project → Db → Result (List Project)
insert_project p db =
    insert_row (is_some (find (λ (q : Project). q.id ≟ p.id) db.projects)) p db.projects

-- `ORDER BY created_at`: a stable insertion sort
insert_by {ℓ} : {A : Type ℓ} → (A → ℕ) → A → List A → List A
insert_by f x [] = x ∷ []
insert_by f x (y ∷ ys) = if leb (f x) (f y) then x ∷ y ∷ ys else y ∷ insert_by f x ys

unfoldable pub order_by {ℓ} : {A : Type ℓ} → (A → ℕ) → List A → List A
unfolding insert_by
order_by f [] = []
order_by f (x ∷ xs) = insert_by f x (order_by f xs)

-- The tables that `_project_of` is called with.
pub data Table : Type 0 where
  runs snapshots instances : Table

-- `SELECT project_id FROM runs WHERE id=?`
unfoldable pub project_of_run : String → Db → Option String
project_of_run rid db = elim (find (run_is rid) db.runs) [
  | none ↦ none
  | some r ↦ some r.project_id
]

-- the run of a row: the `JOIN runs r ON t.run_id=r.id WHERE t.id=?`
unfoldable pub run_of_snapshot : String → Db → Option String
run_of_snapshot sid db = elim (find (snapshot_is sid) db.snapshots) [
  | none ↦ none
  | some s ↦ some s.run_id
]

unfoldable pub run_of_instance : String → Db → Option String
run_of_instance iid db = elim (find (instance_is iid) db.instances) [
  | none ↦ none
  | some i ↦ some i.run_id
]

unfoldable pub project_of_opt : Option String → Db → Option String
unfolding project_of_run
project_of_opt none db = none
project_of_opt (some rid) db = project_of_run rid db

-- `_project_of(table, "id", val)`
unfoldable pub project_of : Table → String → Db → Option String
unfolding project_of_opt run_of_snapshot run_of_instance
project_of runs val db = project_of_run val db
project_of snapshots val db = project_of_opt (run_of_snapshot val db) db
project_of instances val db = project_of_opt (run_of_instance val db) db

-- the two rows of a new run, committed before the VM boots
unfoldable pub new_run_db : Run → Instance → Db → Result Db
new_run_db r i db = elim (insert_run r db) [
  | err e ↦ err e
  | ok with_run ↦ elim (insert_instance i (record db { runs = with_run })) [
    | err e ↦ err e
    | ok with_instance ↦ ok (record db { runs = with_run; instances = with_instance })
  ]
]

-- `INSERT INTO snapshots …; UPDATE instances SET snapshot_id=? WHERE id=?`
unfoldable pub new_snapshot_db : Snapshot → String → Db → Result Db
new_snapshot_db row iid db = elim (insert_snapshot row db) [
  | err e ↦ err e
  | ok with_snapshot ↦ ok (record db {
    snapshots = with_snapshot;
    instances = update (instance_is iid) (λ i. record i { snapshot_id = some row.id }) db.instances;
  })
]

unfoldable pub new_instance_db : Instance → Db → Result Db
new_instance_db i db = elim (insert_instance i db) [
  | err e ↦ err e
  | ok with_instance ↦ ok (record db { instances = with_instance })
]

unfoldable pub destroyed_db : String → Db → Db
destroyed_db iid db = record db {
  instances = update (instance_is iid) (λ i. record i { state = destroyed }) db.instances;
}
