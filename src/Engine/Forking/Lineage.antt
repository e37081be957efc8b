-- ===== src/Engine/Forking/Lineage.antt =====
-- A snapshot and a fork of it, where nothing fails: `snapshot_instance` and `fork_snapshot` of
-- spikes/engine/kladosd.py.
use klados.Base.{
  ℕ, ◌+◌, ◌<◌, ◌≡◌, refl, ap, ◌∙◌, ◌⊎◌, inr, String, true, false, none, some, List, [], ◌∷◌, ◌++◌,
  ◌==◌, ◌≟◌, ≟_self, length, arith,
}
use klados.Base.Dict.{lookup}
use klados.Base.Result.{ok}
use klados.Cas.Sound.{IsSound}
use klados.Agent.{Guest}
use klados.Schema.{
  Db, Snapshot, Instance, find, update, snapshot_is, instance_is, new_snapshot_db, insert_snapshot,
}
use klados.Schema.Rows.{find-snoc_new}
use klados.Schema.Integrity.{absent-update}
use klados.Engine.{Engine, Host, pure, gets, lift, or_raise, commit, continue, ◌>>=◌, now, new_id}
use klados.Engine.Machines.{dir_of}
use klados.Engine.Goes.{Goes, running}
use klados.Memory.Image.{HasManifest}
use klados.Engine.Taking.{stopped, Goes-take_image}
use klados.Engine.Runs.{Taken, Child, snapshot_instance, fork_snapshot}
use klados.Engine.Forking.{IsFresh}
use klados.Engine.Forking.Children.{AllStarted, fork_starts}

insert_fresh :
    (row : Snapshot) (iid : String) (db : Db)
    → find (snapshot_is row.id) db.snapshots ≡ none
    → new_snapshot_db row iid db
      ≡ ok (record db {
        snapshots = db.snapshots ++ row ∷ [];
        instances =
            update (instance_is iid) (λ i. record i { snapshot_id = some row.id }) db.instances;
      })
unfolding new_snapshot_db update insert_snapshot
insert_fresh row iid db e = rw (new_snapshot_db, insert_snapshot, e) refl

-- What a snapshot that went through has made.
pub record IsTaken (h : Host) (iid : String) (g : Guest) (row : Instance) (taken : Taken)
    (s' : Engine) : Type 0 where
  pub snap : Snapshot
  pub found : find (snapshot_is taken.snapshot_id) s'.db.snapshots ≡ some snap
  pub own_dir : snap.dir ≡ taken.snapshot_id
  pub in_run : snap.run_id ≡ row.run_id
  pub under : snap.parent_id ≡ row.snapshot_id
  pub live : lookup iid s'.live ≡ some (running (stopped g))
  pub sound : IsSound h.codec s'.store
  pub gone : (dir_of taken.snapshot_id s').files.mem ≡ none
  pub holds :
      HasManifest h.codec s'.store (dir_of taken.snapshot_id s').files (h.freeze (stopped g))
  pub fresh : IsFresh h s'.db s'.ticks

module _ (h : Host) (sure : (k : ℕ) → h.succeeds k ≡ true)
    (sent : (key : String) → h.sent key ≡ true) (iid label : String) (g : Guest) (row : Instance)
    (s : Engine) (here : lookup iid s.live ≡ some (running g))
    (found : find (instance_is iid) s.db.instances ≡ some row) (sound : IsSound h.codec s.store)
    (cut : 0 < s.store.block) (tier : (s.store.rooted ≡ true) ⊎ (s.store.tiered ≡ true))
    (fresh : IsFresh h s.db s.ticks)
    (unused : find (snapshot_is (h.uuid s.ticks)) s.db.snapshots ≡ none) where
  Goes-snapshot_instance :
      Goes (snapshot_instance h iid label) s (λ taken s'. IsTaken h iid g row taken s')
  unfolding snapshot_instance ◌>>=◌ continue gets or_raise new_id now lift commit pure
  Goes-snapshot_instance =
      let sid = h.uuid s.ticks in
      let s₁ : Engine = record s { ticks = s.ticks + 1 } in
      let image = Goes-take_image h sure sid iid s₁ sent sound cut tier g here in
      let snap : Snapshot = record {
        id = sid;
        run_id = row.run_id;
        parent_id = row.snapshot_id;
        label = label;
        dir = sid;
        size_bytes = image.value;
        created_at = h.time image.state.ticks;
      } in
      let absent : find (snapshot_is sid) image.state.db.snapshots ≡ none =
        ap (λ (db : Db). find (snapshot_is sid) db.snapshots) image.post.db ∙ unused in
      let inserts = insert_fresh snap iid image.state.db absent in
      let db' : Db = record image.state.db {
        snapshots = image.state.db.snapshots ++ snap ∷ [];
        instances =
            update (instance_is iid) (λ i. record i { snapshot_id = some sid })
              image.state.db.instances;
      } in
      let s' : Engine = record image.state { db = db'; ticks = image.state.ticks + 1 } in
      record {
        value = record { snapshot_id = sid; size_bytes = image.value; parent = row.snapshot_id };
        state = s';
        runs = rw (here, found, image.runs, inserts) refl;
        post = record {
          snap = snap;
          found = find-snoc_new (snapshot_is sid) image.state.db.snapshots snap absent (≟_self sid);
          own_dir = refl;
          in_run = refl;
          under = refl;
          live = image.post.live;
          sound = image.post.sound;
          gone = image.post.gone;
          holds = image.post.holds;
          fresh = λ k le.
              absent-update (instance_is iid) (λ i. record i { snapshot_id = some sid }) (λ i. refl)
                (h.uuid k) image.state.db.instances
                (ap (λ (db : Db). find (instance_is (h.uuid k)) db.instances) image.post.db
                  ∙ fresh k (omega (arith, image.post.later, le)));
        };
      }

  -- A snapshot of a running instance and then a fork of it, where no call fails: both return, the fork
  -- with as many children as were asked for. The instance runs on, stopped; each child runs what that
  -- guest became by the child's own FORKED message, and has a row in the instance's run, below the row
  -- of the new snapshot, on its own branch. The conditions: the store is sound and keeps chunks somewhere, a frozen
  -- guest thaws as it was, and identifiers are not drawn twice nor in use.
  pub snapshot_forks :
      (distinct : (j k : ℕ) → (j == k) ≡ false → (h.uuid j ≟ h.uuid k) ≡ false) (n : ℕ)
      → h.thaw (h.freeze (stopped g)) ≡ some (stopped g)
      → (taken : Taken) × (s₁ : Engine) × (snap : Snapshot) × (children : List Child)
        × (s₂ : Engine) × (snapshot_instance h iid label s ≡ (ok taken, s₁))
        × (find (snapshot_is taken.snapshot_id) s₁.db.snapshots ≡ some snap)
        × (lookup iid s₁.live ≡ some (running (stopped g)))
        × (snap.run_id ≡ row.run_id)
        × (snap.parent_id ≡ row.snapshot_id)
        × (fork_snapshot h taken.snapshot_id n s₁ ≡ (ok children, s₂))
        × (length children ≡ n)
        × AllStarted snap (stopped g) 0 n children s₂.live s₂.db
  snapshot_forks distinct n thaws =
      let took = Goes-snapshot_instance in
      let is = took.post in
      let (children, s₂, forked, count, all) =
        fork_starts h sure distinct is.snap (stopped g) (h.freeze (stopped g)) thaws
          took.value.snapshot_id n took.state is.found is.own_dir is.sound.hot_pure
          is.sound.cold_pure (inr (is.gone, is.holds)) is.fresh in
      (
        took.value, took.state, is.snap, children, s₂, took.runs, is.found, is.live, is.in_run,
        is.under, forked, count, all,
      )
