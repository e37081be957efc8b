-- ===== src/Engine/Forking/Children.antt =====
-- A fork that meets no failure starts all of its children (`fork_snapshot` of spikes/engine/kladosd.py).
use klados.Base.{
  ℕ, zero, suc, ◌+◌, ◌≤◌, ◌<◌, ◌≡◌, refl, ap, ◌∙◌, String, true, false, Option, some, List, [], ◌∷◌,
  ◌≟◌, ◌==◌, length, arith,
}
use klados.Base.Dict.{Dict, lookup, insert, lookup-insert_self}
use klados.Base.Result.{Result, ok}
use klados.Codec.{Bytes}
use klados.Cas.{Cas}
use klados.Cas.Sound.{IsPure}
use klados.Memory.{MemFiles, reconstruct_mem}
use klados.Memory.Image.{Holds as HoldsImage, reconstruct_mem-Rebuilt}
use klados.Agent.{Guest}
use klados.Schema.{Db, Snapshot, Instance, find, snapshot_is, instance_is}
use klados.Engine.{SnapDir, Vm, Engine, Host, pure, gets, or_raise, commit, continue, ◌>>=◌}
use klados.Engine.Machines.{dir_of, dir_or_empty, reconstruct}
use klados.Engine.Goes.{Goes}
use klados.Engine.Runs.{Child, fork_children, fork_snapshot}
use klados.Engine.Forking.{IsFresh, Started, Goes-fork_child}

-- all children, from the `i`-th on
pub AllStarted : Snapshot → Guest → ℕ → ℕ → List Child → Dict Vm → Db → Type 0
AllStarted snap g i n [] vms db = Unit
AllStarted snap g i n (c ∷ children) vms db =
    Started snap g i n c vms db × AllStarted snap g (i + 1) n children vms db

-- What the loop adds, and that the rest stays.
record Loop (h : Host) (snap : Snapshot) (g : Guest) (left i n : ℕ) (s : Engine) (db : Db)
    (all : Db × List Child) (s' : Engine) : Type 0 where
  started : AllStarted snap g i n all.1 s'.live all.0
  count : length all.1 ≡ left
  later : s.ticks ≤ s'.ticks
  others :
      (j : String)
      → ((k : ℕ) → s.ticks ≤ k → (h.uuid k ≟ j) ≡ false)
      → lookup j s'.live ≡ lookup j s.live
  kept :
      (j : String) (r : Instance)
      → find (instance_is j) db.instances ≡ some r
      → find (instance_is j) all.0.instances ≡ some r

module _ (h : Host) (sure : (k : ℕ) → h.succeeds k ≡ true)
    (distinct : (j k : ℕ) → (j == k) ≡ false → (h.uuid j ≟ h.uuid k) ≡ false) (snap : Snapshot)
    (g : Guest) (image : Bytes) (thaws : h.thaw image ≡ some g) where
  -- a child that the later rounds leave alone
  Started-keeps :
      (left i j n : ℕ) (c : Child) (s s' : Engine) (db : Db) (all : Db × List Child) (k₀ : ℕ)
      → c.instance_id ≡ h.uuid k₀
      → k₀ < s.ticks
      → Loop h snap g left j n s db all s'
      → Started snap g i n c s.live db
      → Started snap g i n c s'.live all.0
  Started-keeps left i j n c s s' db all k₀ drawn before loop st = record {
    named = st.named;
    time = st.time;
    live =
        loop.others c.instance_id (λ k le. rw drawn (distinct k k₀ (ground (arith, le, before))))
        ∙ st.live;
    row = st.row;
    found = loop.kept c.instance_id st.row st.found;
    in_run = st.in_run;
    under = st.under;
    runs = st.runs;
    on_branch = st.on_branch;
  }

  Goes-fork_children :
      (left i n : ℕ) (db : Db) (s : Engine)
      → (dir_of snap.dir s).files.mem ≡ some image
      → IsFresh h db s.ticks
      → Goes (fork_children h left snap i n db) s (Loop h snap g left i n s db)
  unfolding fork_children ◌>>=◌ continue pure AllStarted
  Goes-fork_children zero i n db s mem fresh = record {
    value = (db, []);
    state = s;
    runs = refl;
    post = record {
      started = tt;
      count = refl;
      later = omega arith;
      others = λ j none_drawn. refl;
      kept = λ j r e. e;
    };
  }
  Goes-fork_children (suc left) i n db s mem fresh =
      let first = Goes-fork_child h sure distinct snap g image thaws i n db s mem fresh in
      let one = first.value in
      let mem₁ : (dir_of snap.dir first.state).files.mem ≡ some image =
        ap (λ (ds : Dict SnapDir). (dir_or_empty (lookup snap.dir ds)).files.mem) first.post.dirs
        ∙ mem in
      let rest = Goes-fork_children left (i + 1) n one.0 first.state mem₁ first.post.fresh in
      record {
        value = (rest.value.0, one.1 ∷ rest.value.1);
        state = rest.state;
        runs = rw (first.runs, rest.runs) refl;
        post = record {
          started = (
            Started-keeps left i (i + 1) n one.1 first.state rest.state one.0 rest.value s.ticks
                first.post.drawn first.post.later rest.post first.post.started,
            rest.post.started,
          );
          count = ap suc rest.post.count;
          later = omega (arith, first.post.later, rest.post.later);
          others = λ j none_drawn.
              rest.post.others j (λ k le. none_drawn k (omega (arith, first.post.later)))
              ∙ first.post.others j (none_drawn s.ticks (omega arith));
          kept = λ j r e. rest.post.kept j r (first.post.kept j r e);
        };
      }

  reconstruct_goes :
      (sid : String) (s : Engine)
      → IsPure h.codec s.store.hot
      → IsPure h.codec s.store.cold
      → HoldsImage h.codec s.store (dir_of sid s).files image
      → (files : MemFiles) × (store : Cas) × (reconstruct h sid s ≡ (
        ok tt,
        record s {
          dirs = insert sid (record (dir_of sid s) { files = files }) s.dirs;
          store = store;
        },
      ))
        × (files.mem ≡ some image)
  unfolding reconstruct
  reconstruct_goes sid s hot cold holds =
      let d = dir_of sid s in
      let back = reconstruct_mem-Rebuilt h.codec d.files image s.store hot cold holds in
      let (r, files, store) = reconstruct_mem h.codec d.files s.store in
      (
        files,
        store,
        ap (λ (q : Result (Unit {0})). (q, (reconstruct h sid s).1)) back.returned,
        back.hot_form,
      )

  -- A fork that meets no failure returns with as many children as were asked for. Each of them runs
  -- what the frozen guest became by its own FORKED message, and has a row of the snapshot's run, below
  -- the snapshot, on its own branch. It is enough that the snapshot's memory is there, as a file or as
  -- chunks, that identifiers are not drawn twice, and that no row has one that will be drawn.
  pub fork_starts :
      (sid : String) (n : ℕ) (s : Engine)
      → find (snapshot_is sid) s.db.snapshots ≡ some snap
      → snap.dir ≡ sid
      → IsPure h.codec s.store.hot
      → IsPure h.codec s.store.cold
      → HoldsImage h.codec s.store (dir_of sid s).files image
      → IsFresh h s.db s.ticks
      → (children : List Child) × (s' : Engine) × (fork_snapshot h sid n s ≡ (ok children, s'))
        × (length children ≡ n)
        × AllStarted snap g 0 n children s'.live s'.db
  unfolding fork_snapshot ◌>>=◌ continue gets or_raise commit pure
  fork_starts sid n s found here hot cold holds fresh =
      let (files, store, back, mem) = reconstruct_goes sid s hot cold holds in
      let d = record (dir_of sid s) { files = files } in
      let s₁ : Engine = record s { dirs = insert sid d s.dirs; store = store } in
      let mem₁ : (dir_of snap.dir s₁).files.mem ≡ some image =
        ap (λ p. (dir_of p s₁).files.mem) here
        ∙ ap (λ (o : Option SnapDir). (dir_or_empty o).files.mem) (lookup-insert_self sid d s.dirs)
        ∙ mem in
      let forks = Goes-fork_children n 0 n s.db s₁ mem₁ fresh in
      let s' : Engine = record forks.state { db = forks.value.0 } in
      (forks.value.1, s', rw (found, back, forks.runs) refl, forks.post.count, forks.post.started)
