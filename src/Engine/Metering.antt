-- ===== src/Engine/Metering.antt =====
-- What a round of `_meter_loop` (spikes/engine/kladosd.py) adds to each project's usage.
use native.Mathlib.Nat.{mul-add, suc-mul}
use klados.Base.{
  ℕ, ◌+◌, ◌*◌, String, ◌≡◌, ap, ◌∙◌, Option, none, some, List, [], ◌∷◌, arith, inl, inr, Bool-cases,
  ◌≟◌, ≟_iff, if◌then◌else◌, refl, zero, suc, sym,
}
use klados.Base.Dict.{Dict, lookup, insert}
use klados.Schema.{
  project_of_opt, project_of_run, run_of_instance, Db, Usage, find, Table, project_of,
}
use klados.Engine.{Engine, Vm, Host, gets, commit, now, ◌>>=◌}
use klados.Engine.Reports.{
  Accrued, amount, accrue, accrue_live, add_usage, add_all_usage, meter_tick, meter_rounds, used,
  usage,
}

-- 1 for the project `q`, else 0
one_for : String → Option String → ℕ
one_for q none = 0
one_for q (some p) = if p ≟ q then 1 else 0

-- how many of the live instances belong to the project
pub live_of : String → Db → Dict Vm → ℕ
unfolding one_for
live_of q db [] = 0
live_of q db ((iid, vm) ∷ live) = one_for q (project_of Table.instances iid db) + live_of q db live

vcpu_for : String → Accrued → ℕ
vcpu_for q [] = 0
vcpu_for q ((p, (v, g)) ∷ accr) = (if p ≟ q then v else 0) + vcpu_for q accr

ram_for : String → Accrued → ℕ
ram_for q [] = 0
ram_for q ((p, (v, g)) ∷ accr) = (if p ≟ q then g else 0) + ram_for q accr

vcpu_for-insert :
    (q p : String) (dt g : ℕ) (accr : Accrued)
    → vcpu_for q (insert p ((amount (lookup p accr)).0 + dt, g) accr)
      ≡ vcpu_for q accr + (if p ≟ q then dt else 0)
unfolding vcpu_for insert lookup
vcpu_for-insert q p dt g [] = ground arith
vcpu_for-insert q p dt g ((j, (v, w)) ∷ accr) =
    ground (arith, ≟_iff j p, vcpu_for-insert q p dt g accr)

ram_for-insert :
    (q p : String) (v dt : ℕ) (accr : Accrued)
    → ram_for q (insert p (v, (amount (lookup p accr)).1 + dt) accr)
      ≡ ram_for q accr + (if p ≟ q then dt else 0)
unfolding ram_for insert lookup
ram_for-insert q p v dt [] = ground arith
ram_for-insert q p v dt ((j, (w, g)) ∷ accr) =
    ground (arith, ≟_iff j p, ram_for-insert q p v dt accr)

abbrev row_of : String → List Usage → Option Usage
row_of q rows = find (λ (u : Usage). u.project_id ≟ q) rows

vcpu-add_usage :
    (q p : String) (t v g : ℕ) (rows : List Usage)
    → (used (row_of q (add_usage t p v g rows))).0
      ≡ (used (row_of q rows)).0 + (if p ≟ q then v else 0)
unfolding used add_usage find
vcpu-add_usage q p t v g [] = ground arith
vcpu-add_usage q p t v g (u ∷ rows) =
    ground
      (arith, ≟_iff u.project_id p, ≟_iff u.project_id q, ≟_iff p q, vcpu-add_usage q p t v g rows)

ram-add_usage :
    (q p : String) (t v g : ℕ) (rows : List Usage)
    → (used (row_of q (add_usage t p v g rows))).1
      ≡ (used (row_of q rows)).1 + (if p ≟ q then g else 0)
unfolding used add_usage find
ram-add_usage q p t v g [] = ground arith
ram-add_usage q p t v g (u ∷ rows) =
    ground
      (arith, ≟_iff u.project_id p, ≟_iff u.project_id q, ≟_iff p q, ram-add_usage q p t v g rows)

add_all_usage_bills :
    (q : String) (t : ℕ) (accr : Accrued) (rows : List Usage)
    → ((used (row_of q (add_all_usage t accr rows))).0 ≡ (used (row_of q rows)).0 + vcpu_for q accr)
      × ((used (row_of q (add_all_usage t accr rows))).1
          ≡ (used (row_of q rows)).1 + ram_for q accr)
unfolding add_all_usage vcpu_for ram_for
add_all_usage_bills q t [] rows = (omega arith, omega arith)
add_all_usage_bills q t ((p, (v, g)) ∷ accr) rows =
    let (more_v, more_g) = add_all_usage_bills q t accr (add_usage t p v g rows) in
    (
      omega (arith, more_v, vcpu-add_usage q p t v g rows),
      omega (arith, more_g, ram-add_usage q p t v g rows),
    )

accrue_bills :
    (q : String) (mem_mib dt : ℕ) (o : Option String) (accr : Accrued)
    → (vcpu_for q (accrue mem_mib dt o accr) ≡ vcpu_for q accr + dt * one_for q o)
      × (ram_for q (accrue mem_mib dt o accr) ≡ ram_for q accr + mem_mib * dt * one_for q o)
unfolding accrue one_for
accrue_bills q mem_mib dt none accr = (omega arith, omega arith)
accrue_bills q mem_mib dt (some p) accr =
    let (v, g) = amount (lookup p accr) in
    let more_v = vcpu_for-insert q p dt (g + mem_mib * dt) accr in
    let more_g = ram_for-insert q p (v + dt) (mem_mib * dt) accr in
    elim (Bool-cases (p ≟ q)) [
      | inl same ↦ rw same (omega (arith, rw same at more_v), omega (arith, rw same at more_g))
      | inr other ↦ rw other (omega (arith, rw other at more_v), omega (arith, rw other at more_g))
    ]

accrue_live_bills :
    (q : String) (mem_mib dt : ℕ) (db : Db) (live : Dict Vm) (accr : Accrued)
    → (vcpu_for q (accrue_live mem_mib dt db live accr) ≡ vcpu_for q accr + dt * live_of q db live)
      × (ram_for q (accrue_live mem_mib dt db live accr)
          ≡ ram_for q accr + mem_mib * dt * live_of q db live)
unfolding accrue_live live_of
accrue_live_bills q mem_mib dt db [] accr = (omega arith, omega arith)
accrue_live_bills q mem_mib dt db ((iid, vm) ∷ live) accr =
    let o = project_of Table.instances iid db in
    let (v, g) = accrue_bills q mem_mib dt o accr in
    let (v', g') = accrue_live_bills q mem_mib dt db live (accrue mem_mib dt o accr) in
    (
      v' ∙ ground (arith, v, mul-add dt (one_for q o) (live_of q db live)),
      g' ∙ ground (arith, g, mul-add (mem_mib * dt) (one_for q o) (live_of q db live)),
    )

-- A round of metering adds, to the usage that is reported for a project, the interval times the
-- number of live instances of the project as vCPU time, and that times the memory size as memory
-- time; nothing for an instance of another project, or without a row. Of the tables only `usage` changes, and no VM.
pub meter_tick_bills :
    (h : Host) (mem_mib dt : ℕ) (q : String) (s : Engine)
    → let s' = (meter_tick h mem_mib dt s).1 in
      ((usage q s'.db).0 ≡ (usage q s.db).0 + dt * live_of q s.db s.live)
      × ((usage q s'.db).1 ≡ (usage q s.db).1 + mem_mib * dt * live_of q s.db s.live)
      × (s'.db ≡ record s.db { usage = s'.db.usage })
      × (s'.live ≡ s.live)
unfolding meter_tick usage ◌>>=◌ gets now commit vcpu_for ram_for
meter_tick_bills h mem_mib dt q s =
    let accr = accrue_live mem_mib dt s.db s.live [] in
    let (v, g) = accrue_live_bills q mem_mib dt s.db s.live [] in
    let (v', g') = add_all_usage_bills q (h.time s.ticks) accr s.db.usage in
    (
      v' ∙ ap (λ n. (used (row_of q s.db.usage)).0 + n) (v ∙ plus (dt * live_of q s.db s.live)),
      g'
          ∙ ap (λ n. (used (row_of q s.db.usage)).1 + n)
              (g ∙ plus (mem_mib * dt * live_of q s.db s.live)),
      refl,
      refl,
    )
  where
    plus : (n : ℕ) → 0 + n ≡ n
    plus n = omega arith

same_project :
    (o : Option String) (db : Db) (rows : List Usage)
    → project_of_opt o (record db { usage = rows }) ≡ project_of_opt o db
unfolding project_of_opt project_of_run
same_project none db rows = refl
same_project (some rid) db rows = refl

-- billing changes nothing that says which instances are whose
live_of-meter_tick :
    (q : String) (db : Db) (rows : List Usage) (live : Dict Vm)
    → live_of q (record db { usage = rows }) live ≡ live_of q db live
unfolding live_of project_of run_of_instance
live_of-meter_tick q db rows [] = refl
live_of-meter_tick q db rows ((iid, vm) ∷ live) =
    ap (λ o. one_for q o + live_of q (record db { usage = rows }) live)
      (same_project (run_of_instance iid db) db rows)
    ∙ ap (λ n. one_for q (project_of Table.instances iid db) + n)
        (live_of-meter_tick q db rows live)

still_live :
    (h : Host) (mem_mib dt : ℕ) (q : String) (s : Engine)
    → let s' = (meter_tick h mem_mib dt s).1 in live_of q s'.db s'.live ≡ live_of q s.db s.live
unfolding meter_tick ◌>>=◌ gets now commit
still_live h mem_mib dt q s = live_of-meter_tick q s.db _ s.live

-- Any number of rounds of metering between two requests add, to the usage that is reported for a
-- project, the rounds times the interval times the project's live instances as vCPU time; an instance
-- of another project, or without a row, adds nothing.
pub meter_rounds_bill :
    (h : Host) (mem_mib dt : ℕ) (q : String) (n : ℕ) (s : Engine)
    → (usage q (meter_rounds h mem_mib dt n s).db).0
      ≡ (usage q s.db).0 + n * (dt * live_of q s.db s.live)
unfolding meter_rounds
meter_rounds_bill h mem_mib dt q zero s = omega arith
meter_rounds_bill h mem_mib dt q (suc n) s =
    let s' = (meter_tick h mem_mib dt s).1 in
    let cost = dt * live_of q s.db s.live in
    meter_rounds_bill h mem_mib dt q n s'
    ∙ ap (λ l. (usage q s'.db).0 + n * (dt * l)) (still_live h mem_mib dt q s)
    ∙ ap (λ v. v + n * cost) (meter_tick_bills h mem_mib dt q s).0
    ∙ three (usage q s.db).0 cost (n * cost)
    ∙ ap (λ m. (usage q s.db).0 + m) (sym (suc-mul n cost))
  where
    three : (a b c : ℕ) → (a + b) + c ≡ a + (c + b)
    three a b c = omega arith
