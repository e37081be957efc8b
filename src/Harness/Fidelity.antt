-- ===== src/Harness/Fidelity.antt =====
-- What the verdict on a database that was copied under load means (spikes/harness/spike_h_fidelity.py,
-- spikes/guest/guest_agent.py).
use klados.Base.{
  ℕ, ◌+◌, ◌≤◌, ◌≡◌, refl, String, true, some, List, [], ◌∷◌, ◌++◌, length, ltb, ◌==◌, ≟_self,
  if◌then◌else◌, arith,
}
use klados.Agent.{Guest, AppDb, count_worker, group_by_worker, check_db, plain, handle}
use klados.Harness.Verdicts.{count_at, all_reached, sum_values, fidelity_ok}

count_at-count_worker :
    (w v : ℕ) (groups : List (ℕ × ℕ))
    → count_at w (count_worker v groups) ≡ (if v == w then 1 else 0) + count_at w groups
unfolding count_at count_worker
count_at-count_worker w v [] = ground arith
count_at-count_worker w v ((u, c) ∷ groups) = ground (arith, count_at-count_worker w v groups)

sum_values-count_worker :
    (v : ℕ) (groups : List (ℕ × ℕ)) → sum_values (count_worker v groups) ≡ 1 + sum_values groups
unfolding sum_values count_worker
sum_values-count_worker v [] = ground arith
sum_values-count_worker v ((u, c) ∷ groups) = ground (arith, sum_values-count_worker v groups)

length-count_worker :
    (v : ℕ) (groups : List (ℕ × ℕ)) → length groups ≤ length (count_worker v groups)
unfolding count_worker
length-count_worker v [] = omega arith
length-count_worker v ((u, c) ∷ groups) = ground (arith, length-count_worker v groups)

-- more rows, the latest first
module _ (rows : List ℕ) where
  count_at-more :
      (w : ℕ) (more : List ℕ)
      → count_at w (group_by_worker rows) ≤ count_at w (group_by_worker (more ++ rows))
  unfolding group_by_worker
  count_at-more w [] = omega arith
  count_at-more w (v ∷ more) =
      omega
        (arith, count_at-more w more, count_at-count_worker w v (group_by_worker (more ++ rows)))

  sum_values-more :
      (more : List ℕ)
      → sum_values (group_by_worker (more ++ rows))
        ≡ length more + sum_values (group_by_worker rows)
  unfolding group_by_worker
  sum_values-more [] = omega arith
  sum_values-more (v ∷ more) =
      omega
        (arith, sum_values-more more, sum_values-count_worker v (group_by_worker (more ++ rows)))

  length-more :
      (more : List ℕ) → length (group_by_worker rows) ≤ length (group_by_worker (more ++ rows))
  unfolding group_by_worker
  length-more [] = omega arith
  length-more (v ∷ more) =
      omega (arith, length-more more, length-count_worker v (group_by_worker (more ++ rows)))

  all_reached-more :
      (more : List ℕ) (workers : List (ℕ × ℕ))
      → all_reached (group_by_worker (more ++ rows)) (group_by_worker rows) workers ≡ true
  unfolding all_reached
  all_reached-more more [] = refl
  all_reached-more more ((w, c) ∷ workers) =
      ground (arith, count_at-more w more, all_reached-more more workers)

-- Spike H passes a child whose database is whole and has the rows of the base, with whatever was written
-- since, and whose session is the base's: exactly if at least one row was written since, by whichever
-- worker.
pub fidelity_judged :
    (base_guest child_guest : Guest) (db : AppDb) (more later : List ℕ) (session : String)
    → base_guest.app_db ≡ some db
    → child_guest.app_db
      ≡ some (record { integrity = "ok"; writes = more ++ db.writes; meanwhile = later })
    → base_guest.session ≡ some session
    → child_guest.session ≡ some session
    → fidelity_ok (handle (plain "CHECK") base_guest).0 (handle (plain "CHECK") child_guest).0
      ≡ ltb 0 (length more)
unfolding handle check_db fidelity_ok
fidelity_judged b c db more later session bd cd bs cs =
    rw (bd, cd, bs, cs)
      (ground (
        arith,
        ≟_self session,
        all_reached-more db.writes more (group_by_worker db.writes),
        length-more db.writes more,
        sum_values-more db.writes more,
      ))
