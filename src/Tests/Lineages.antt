-- ===== src/Tests/Lineages.antt =====
-- An example of a snapshot and a fork of it (spikes/engine/kladosd.py).
use klados.Base.{
  ℕ, zero, suc, ◌≤◌, ◌≡◌, refl, ap, inl, inr, false, Bool-cases, String, none, some, List, [], ◌∷◌,
  ◌==◌, ◌≟◌, ≟_iff, length, arith,
}
use klados.Base.Dict.{lookup}
use klados.Base.Result.{ok}
use klados.Schema.{Snapshot, Instance, find, snapshot_is, running as row_runs}
use klados.Engine.{Engine, Host}
use klados.Engine.Goes.{running}
use klados.Engine.Taking.{stopped}
use klados.Engine.Runs.{Taken, Child, snapshot_instance, fork_snapshot}
use klados.Engine.Forking.{IsFresh}
use klados.Engine.Forking.Children.{AllStarted}
use klados.Engine.Forking.Lineage.{snapshot_forks}
use klados.Tests.Guests.{stopped_guest}
use klados.Tests.Stores.{store, store-IsSound}
use klados.Tests.Daemon.{host, engine}

abbrev unary : ℕ → String
unary zero = "x"
unary (suc k) = String.◌∷◌ "u" (unary k)

abbrev unary_host : Host
unary_host = record host {
  uuid = unary;
  freeze = λ g. 1 ∷ [];
  thaw = λ b. some (stopped stopped_guest);
}

abbrev size : String → ℕ
size String.[] = zero
size (String.◌∷◌ c t) = suc (size t)

size-unary : (k : ℕ) → size (unary k) ≡ suc k
size-unary zero = refl
size-unary (suc k) = ap suc (size-unary k)

unary-distinct : (j k : ℕ) → (j == k) ≡ false → (unary j ≟ unary k) ≡ false
unary-distinct j k ne = elim (Bool-cases (unary j ≟ unary k)) [
  | inl eq ↦
      let same = ap size ((≟_iff (unary j) (unary k)).0 eq) in
      absurd (ground (arith, ne, same, size-unary j, size-unary k))
  | inr no_eq ↦ no_eq
]

-- the row of the one instance that there is
abbrev first_row : Instance
first_row = record {
  id = "iii";
  run_id = "r";
  snapshot_id = none;
  state = row_runs;
  branch = "genesis";
  created_at = 2;
}

abbrev lone : Engine
lone = record engine {
  db = record engine.db { instances = first_row ∷ [] };
  live = ("iii", running stopped_guest) ∷ [];
  store = store;
  ticks = 3;
}

unused : (k : ℕ) → 3 ≤ k → ("iii" ≟ unary k) ≡ false
unused k le = elim (Bool-cases ("iii" ≟ unary k)) [
  | inl eq ↦
      let same = ap size ((≟_iff "iii" (unary k)).0 eq) in
      absurd (omega (arith, same, size-unary k, le))
  | inr no_eq ↦ no_eq
]

lone-IsFresh : IsFresh unary_host lone.db lone.ticks
unfolding find
lone-IsFresh k le = rw (unused k le) refl

snapshot_forks_example :
    (taken : Taken) × (s₁ : Engine) × (snap : Snapshot) × (children : List Child) × (s₂ : Engine)
    × (snapshot_instance unary_host "iii" "before" lone ≡ (ok taken, s₁))
    × (find (snapshot_is taken.snapshot_id) s₁.db.snapshots ≡ some snap)
    × (lookup "iii" s₁.live ≡ some (running (stopped stopped_guest)))
    × (snap.run_id ≡ first_row.run_id)
    × (snap.parent_id ≡ first_row.snapshot_id)
    × (fork_snapshot unary_host taken.snapshot_id 2 s₁ ≡ (ok children, s₂))
    × (length children ≡ 2)
    × AllStarted snap (stopped stopped_guest) 0 2 children s₂.live s₂.db
unfolding lookup find
snapshot_forks_example =
    snapshot_forks unary_host (λ k. refl) (λ key. refl) "iii" "before" stopped_guest first_row lone
      refl refl store-IsSound (omega arith) (inl refl) lone-IsFresh refl unary-distinct 2 refl
