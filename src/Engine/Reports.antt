-- ===== src/Engine/Reports.antt =====
-- What the daemon reports, and the metering: `timeline`, `list_runs`, `_meter_tick` and `usage` of
-- spikes/engine/kladosd.py.
use klados.Base.{
  ℕ, zero, suc, ◌+◌, ◌*◌, String, Option, none, some, List, [], ◌∷◌, ◌≟◌, if◌then◌else◌,
}
use klados.Base.Dict.{Dict, lookup, insert}
use klados.Schema.{
  Db, Run, Snapshot, Instance, Usage, find, select, order_by, Table, project_of, project_of_run,
}
use klados.Engine.{Engine, Vm, Host, Exec, ◌>>=◌, gets, commit, now}

pub record Timeline : Type 0 where
  pub run_id : String
  pub snapshots : List Snapshot
  pub instances : List Instance

unfoldable pub timeline : String → Db → Timeline
timeline run_id db = record {
  run_id = run_id;
  snapshots =
      order_by (λ (s : Snapshot). s.created_at)
        (select (λ (s : Snapshot). s.run_id ≟ run_id) db.snapshots);
  instances = select (λ (i : Instance). i.run_id ≟ run_id) db.instances;
}

unfoldable pub list_runs : String → Db → List Run
list_runs project_id db =
    order_by (λ (r : Run). r.created_at) (select (λ (r : Run). r.project_id ≟ project_id) db.runs)

-- `accr`: what each project has accrued in this tick, as vcpu and ram
abbrev pub Accrued : Type 0
Accrued = Dict (ℕ × ℕ)

abbrev pub amount : Option (ℕ × ℕ) → ℕ × ℕ
amount none = (0, 0)
amount (some a) = a

-- `a = accr.setdefault(pid, [0, 0]); a[0] += dt; a[1] += gib * dt`
unfoldable pub accrue : ℕ → ℕ → Option String → Accrued → Accrued
accrue mem_mib dt none accr = accr
accrue mem_mib dt (some pid) accr =
    let (v, g) = amount (lookup pid accr) in insert pid (v + dt, g + mem_mib * dt) accr

-- the loop over `LIVE`: an instance without a row is passed over
unfoldable pub accrue_live : ℕ → ℕ → Db → Dict Vm → Accrued → Accrued
unfolding accrue
accrue_live mem_mib dt db [] accr = accr
accrue_live mem_mib dt db ((iid, vm) ∷ live) accr =
    accrue_live mem_mib dt db live (accrue mem_mib dt (project_of Table.instances iid db) accr)

-- `INSERT … ON CONFLICT(project_id) DO UPDATE SET …`
unfoldable pub add_usage : ℕ → String → ℕ → ℕ → List Usage → List Usage
add_usage t pid v g [] = record { project_id = pid; vcpu = v; ram = g; updated_at = t } ∷ []
add_usage t pid v g (u ∷ usage) =
    if u.project_id ≟ pid
    then record u { vcpu = u.vcpu + v; ram = u.ram + g; updated_at = t } ∷ usage
    else u ∷ add_usage t pid v g usage

unfoldable pub add_all_usage : ℕ → Accrued → List Usage → List Usage
unfolding add_usage
add_all_usage t [] usage = usage
add_all_usage t ((pid, (v, g)) ∷ accr) usage = add_all_usage t accr (add_usage t pid v g usage)

-- `_meter_tick(dt)`
unfoldable pub meter_tick : Host → ℕ → ℕ → Exec (Unit {0})
unfolding accrue_live add_all_usage
meter_tick h mem_mib dt = do
  accr ← gets (λ s. accrue_live mem_mib dt s.db s.live [])
  t ← now h
  db ← gets (λ s. s.db)
  commit (record db { usage = add_all_usage t accr db.usage })

-- `_meter_loop`, for some rounds between two requests; what a round raises is passed over
unfoldable pub meter_rounds : Host → ℕ → ℕ → ℕ → Engine → Engine
unfolding meter_tick
meter_rounds h mem_mib dt zero s = s
meter_rounds h mem_mib dt (suc n) s = meter_rounds h mem_mib dt n (meter_tick h mem_mib dt s).1

-- `SELECT COALESCE(SUM(s.size_bytes),0) FROM snapshots s JOIN runs r … WHERE r.project_id=?`
unfoldable pub stored_bytes : String → Db → List Snapshot → ℕ
stored_bytes pid db [] = 0
stored_bytes pid db (s ∷ rest) =
    (elim (project_of_run s.run_id db) [
      | none ↦ 0
      | some owner ↦ if owner ≟ pid then s.size_bytes else 0
    ])
    + stored_bytes pid db rest

-- the row of `usage`, or zeroes
unfoldable pub used : Option Usage → ℕ × ℕ
used none = (0, 0)
used (some u) = (u.vcpu, u.ram)

-- `usage`: vcpu, ram, stored bytes. The prices and the rounding are left to the reader of these.
unfoldable pub usage : String → Db → ℕ × ℕ × ℕ
unfolding stored_bytes used
usage pid db =
    let (v, g) = used (find (λ (u : Usage). u.project_id ≟ pid) db.usage) in
    (v, g, stored_bytes pid db db.snapshots)
