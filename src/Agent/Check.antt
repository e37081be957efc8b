-- ===== src/Agent/Check.antt =====
-- The counts of `CHECK` (spikes/guest/guest_agent.py): they say how many rows each worker wrote, and
-- how the total that is sent with them relates to their sum.
use klados.Base.{
  ℕ, ◌+◌, ◌≡◌, refl, sym, ap, ◌∙◌, some, List, [], ◌∷◌, ◌++◌, length, length-append, arith, ◌==◌,
  if◌then◌else◌, true, false, ◌||◌, Bool, not, ◌&&◌,
}
use klados.Agent.{AppDb, check, count_worker, group_by_worker, check_db, plain, handle, Guest}

-- the number of rows that a worker wrote
pub rows_of : ℕ → List ℕ → ℕ
rows_of w [] = 0
rows_of w (v ∷ rows) = (if v == w then 1 else 0) + rows_of w rows

-- the count that is listed for a worker, 0 where there is none
pub count_of : ℕ → List (ℕ × ℕ) → ℕ
count_of w [] = 0
count_of w ((v, c) ∷ groups) = if v == w then c else count_of w groups

pub count_all : List (ℕ × ℕ) → ℕ
count_all [] = 0
count_all ((v, c) ∷ groups) = c + count_all groups

-- whether a worker has a group
has_group : ℕ → List (ℕ × ℕ) → Bool
has_group w [] = false
has_group w ((v, c) ∷ groups) = v == w || has_group w groups

-- Every worker has one group at most: the groups are the items of a dict.
pub no_twins : List (ℕ × ℕ) → Bool
unfolding has_group
no_twins [] = true
no_twins ((v, c) ∷ groups) = not (has_group v groups) && no_twins groups

count_of-count_worker :
    (w v : ℕ) (groups : List (ℕ × ℕ))
    → count_of w (count_worker v groups) ≡ (if v == w then 1 else 0) + count_of w groups
unfolding count_of count_worker
count_of-count_worker w v [] = ground arith
count_of-count_worker w v ((u, c) ∷ groups) = ground (arith, count_of-count_worker w v groups)

count_all-count_worker :
    (v : ℕ) (groups : List (ℕ × ℕ)) → count_all (count_worker v groups) ≡ 1 + count_all groups
unfolding count_all count_worker
count_all-count_worker v [] = ground arith
count_all-count_worker v ((u, c) ∷ groups) = ground (arith, count_all-count_worker v groups)

has_group-count_worker :
    (w v : ℕ) (groups : List (ℕ × ℕ))
    → has_group w (count_worker v groups) ≡ (v == w || has_group w groups)
unfolding has_group count_worker
has_group-count_worker w v [] = ground arith
has_group-count_worker w v ((u, c) ∷ groups) = ground (arith, has_group-count_worker w v groups)

no_twins-count_worker :
    (v : ℕ) (groups : List (ℕ × ℕ))
    → no_twins groups ≡ true
    → no_twins (count_worker v groups) ≡ true
unfolding no_twins has_group count_worker
no_twins-count_worker v [] h = refl
no_twins-count_worker v ((u, c) ∷ groups) h =
    ground (arith, h, has_group-count_worker u v groups, no_twins-count_worker v groups)

group_by_worker_lem : (w : ℕ) (rows : List ℕ) → count_of w (group_by_worker rows) ≡ rows_of w rows
unfolding group_by_worker count_of rows_of
group_by_worker_lem w [] = refl
group_by_worker_lem w (v ∷ rows) =
    count_of-count_worker w v (group_by_worker rows)
    ∙ ap (λ n. (if v == w then 1 else 0) + n) (group_by_worker_lem w rows)

no_twins-group_by_worker : (rows : List ℕ) → no_twins (group_by_worker rows) ≡ true
unfolding group_by_worker no_twins
no_twins-group_by_worker [] = refl
no_twins-group_by_worker (v ∷ rows) =
    no_twins-count_worker v (group_by_worker rows) (no_twins-group_by_worker rows)

count_all-group_by_worker : (rows : List ℕ) → count_all (group_by_worker rows) ≡ length rows
unfolding group_by_worker count_all
count_all-group_by_worker [] = refl
count_all-group_by_worker (v ∷ rows) =
    ground (arith, count_all-count_worker v (group_by_worker rows), count_all-group_by_worker rows)

-- The answer to CHECK on a guest whose database can be read: for every worker the listed count is the
-- number of its rows at the first SELECT, no worker is listed twice, and the total is the sum of the
-- counts and the rows added until the second SELECT; the guest is not changed.
pub check_counts :
    (g : Guest) (db : AppDb)
    → g.app_db ≡ some db
    → (groups : List (ℕ × ℕ)) × (total : ℕ) × (handle (plain "CHECK") g
        ≡ (check db.integrity groups total g.session, g))
      × ((w : ℕ) → count_of w groups ≡ rows_of w db.writes)
      × (no_twins groups ≡ true)
      × (total ≡ length db.meanwhile + count_all groups)
unfolding handle
check_counts g db e = (
  group_by_worker db.writes,
  length (db.meanwhile ++ db.writes),
  ap (λ o. (check_db o g.session, g)) e,
  (λ w. group_by_worker_lem w db.writes),
  no_twins-group_by_worker db.writes,
  length-append db.meanwhile db.writes
      ∙ ap (λ n. length db.meanwhile + n) (sym (count_all-group_by_worker db.writes)),
)
