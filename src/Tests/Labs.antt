-- ===== src/Tests/Labs.antt =====
-- Examples of the experiments of spikes/harness.
use klados.Base.{
  not, ◌&&◌, ℕ, ◌≤◌, ◌%◌, ◌*◌, ◌≡◌, refl, true, false, Option, some, List, [], ◌∷◌, ◌++◌, ◌==◌,
  length, ltb, arith, All, if◌then◌else◌,
}
use klados.Base.Text.{str}
use klados.Agent.{Reply, Guest, AppDb, browser, pong, ready, handle, plain}
use klados.Harness.{Drawn, cross_child_collisions}
use klados.Harness.Lab.{World}
use klados.Harness.Collisions.{drew}
use klados.Harness.Collided.{collision_real}
use klados.Harness.Verdicts.{is_ready, protocol_works, fidelity_ok}
use klados.Harness.Judged.{sent_contexts, works_means}
use klados.Harness.Fidelity.{fidelity_judged}
use klados.Harness.Metrics.{percentile}
use klados.Harness.Percentiles.{percentile_between}
use klados.Tests.Guests.{stopped_guest}

-- every second request is lost
abbrev flaky : World
flaky = record { goes = λ k. k % 2 == 0; replies = λ k. pong; time = λ k. k; rounds = λ k. 3 }

-- The agent answers at first, and then the browser does.
abbrev lively : World
lively = record {
  goes = λ k. true;
  replies = λ k. if ltb k 4 then pong else browser (some "ab") (some "token=ab beat=1 ls=ab\n");
  time = λ k. k;
  rounds = λ k. 3;
}

-- the children 0 and 2 both drew 8
abbrev two_drew : Drawn
two_drew = (0, 7 ∷ 8 ∷ []) ∷ (1, 9 ∷ []) ∷ (2, 8 ∷ 5 ∷ []) ∷ []

collision_real_example :
    All
      (λ (r : ℕ × List ℕ).
        (c : ℕ) × (d : ℕ) × ((c == d) ≡ false)
        × (drew c r.0 two_drew ≡ true)
        × (drew d r.0 two_drew ≡ true))
      (cross_child_collisions two_drew)
collision_real_example = collision_real two_drew

abbrev readys : List (Option Reply)
readys = some (ready (some 0) 1 (some 5)) ∷ some (ready (some 1) 1 (some 6)) ∷ []

abbrev apart : Drawn
apart = (0, 7 ∷ 8 ∷ []) ∷ (1, 9 ∷ []) ∷ []

works_means_example :
    All (λ r. is_ready r ≡ true) readys
    × (sent_contexts 2 0 2 ≡ sent_contexts 2 0 2)
    × ((drew 0 8 apart && drew 1 8 apart && not (0 == 1)) ≡ false)
    × ((drew 0 8 apart && drew 1 8 apart && not (0 == 1)) ≡ false)
unfolding protocol_works drew cross_child_collisions str
works_means_example = works_means 2 readys apart apart (sent_contexts 2 0 2) 8 0 1 refl refl refl

abbrev app_db : AppDb
app_db = record { integrity = "ok"; writes = 2 ∷ 0 ∷ 1 ∷ 0 ∷ []; meanwhile = [] }

-- the workers of the rows written since
abbrev later : List ℕ
later = 1 ∷ 2 ∷ []

abbrev base_guest : Guest
base_guest = record stopped_guest { app_db = some app_db; session = some "5e55" }

abbrev child_guest : Guest
child_guest = record base_guest {
  app_db = some (record { integrity = "ok"; writes = later ++ app_db.writes; meanwhile = 0 ∷ [] });
}

fidelity_judged_example :
    fidelity_ok (handle (plain "CHECK") base_guest).0 (handle (plain "CHECK") child_guest).0
    ≡ ltb 0 (length later)
fidelity_judged_example =
    fidelity_judged base_guest child_guest app_db later (0 ∷ []) "5e55" refl refl refl refl

percentile_between_example :
    (a : ℕ) × (b : ℕ) × (percentile (30 ∷ 10 ∷ 20 ∷ []) 50 ≡ some a)
    × (percentile (30 ∷ 10 ∷ 20 ∷ []) 99 ≡ some b)
    × (10 * 100 ≤ a)
    × (a ≤ b)
    × (b ≤ 30 * 100)
percentile_between_example =
    percentile_between 30 (10 ∷ 20 ∷ []) 10 30 50 99
      ((omega arith, omega arith), ((omega arith, omega arith), ((omega arith, omega arith), tt)))
      (omega arith) (omega arith)
