-- ===== src/Engine/Forking.antt =====
-- A round of the loop of `fork_snapshot` in spikes/engine/kladosd.py, where no call fails.
pub mod Children
pub mod Lineage
use klados.Base.{
  ℕ, zero, suc, ◌+◌, ◌≤◌, ◌<◌, ◌≡◌, refl, sym, ap, ◌∙◌, String, Bool, true, false, Option, none,
  some, List, [], ◌∷◌, ◌++◌, ◌≟◌, ◌==◌, ≟_self, length, arith,
}
use klados.Base.Dict.{Dict, lookup, insert, lookup-insert_self}
use klados.Base.Result.{Result, ok}
use klados.Codec.{Bytes}
use klados.Cas.{Cas}
use klados.Cas.Sound.{IsPure}
use klados.Memory.{MemFiles, reconstruct_mem}
use klados.Memory.Image.{Holds as HoldsImage, reconstruct_mem-Rebuilt}
use klados.Agent.{Guest, ready, forked_msg, handle}
use klados.Agent.Protocol.{forked_msg-ready}
use klados.Schema.{
  Db, Snapshot, Instance, find, snapshot_is, instance_is, new_instance_db, insert_instance,
  running as row_runs,
}
use klados.Schema.Rows.{find-append, find-snoc_new, find-snoc_other}
use klados.Engine.{
  SnapDir, Vm, Engine, Host, Exec, pure, gets, modify, lift, or_raise, commit, continue, ◌>>=◌,
  ◌>>◌, now, new_id,
}
use klados.Engine.Machines.{dir_of, dir_or_empty, reconstruct}
use klados.Engine.Goes.{
  Goes, Aside, Aside-trans, Holds, running, Goes-ask, Goes-wait_agent, Goes-boot_vm,
}
use klados.Engine.Runs.{
  Child, branch_name, branch_of, branch_told, tell_forked, fork_child, fork_children, fork_snapshot,
}

insert_fresh :
    (row : Instance) (db : Db)
    → find (instance_is row.id) db.instances ≡ none
    → new_instance_db row db ≡ ok (record db { instances = db.instances ++ row ∷ [] })
unfolding new_instance_db insert_instance
insert_fresh row db e = rw (new_instance_db, insert_instance, e) refl

-- the guest after the FORKED message of the `i`-th child
abbrev pub told : Guest → ℕ → ℕ → ℕ → Guest
told g i n t = (handle (forked_msg i n t (branch_name i n)) g).1

-- the child was told at some time, and keeps its branch's name
record Told (iid : String) (g : Guest) (i n : ℕ) (s : Engine) (branch : String) (s' : Engine)
    : Type 0 where
  named : branch ≡ branch_name i n
  time : ℕ
  holds : Holds iid (running (told g i n time)) s s'

-- From a state on, no identifier that will be drawn is that of a row.
abbrev pub IsFresh : Host → Db → ℕ → Type 0
IsFresh h db t = (k : ℕ) → t ≤ k → find (instance_is (h.uuid k)) db.instances ≡ none

-- A child of the fork: its VM is live and was told, and its row is there.
pub record Started (snap : Snapshot) (g : Guest) (i n : ℕ) (c : Child) (vms : Dict Vm) (db : Db)
    : Type 0 where
  pub named : c.branch ≡ branch_name i n
  pub time : ℕ
  pub live : lookup c.instance_id vms ≡ some (running (told g i n time))
  pub row : Instance
  pub found : find (instance_is c.instance_id) db.instances ≡ some row
  pub in_run : row.run_id ≡ snap.run_id
  pub under : row.snapshot_id ≡ some snap.id
  pub runs : row.state ≡ row_runs
  pub on_branch : row.branch ≡ branch_name i n

-- What a round adds to the state and to the connection's tables, and that the rest stays.
pub record Round (h : Host) (snap : Snapshot) (g : Guest) (i n : ℕ) (s : Engine) (db : Db)
    (one : Db × Child) (s' : Engine) : Type 0 where
  pub started : Started snap g i n one.1 s'.live one.0
  pub drawn : one.1.instance_id ≡ h.uuid s.ticks
  pub later : s.ticks < s'.ticks
  pub dirs : s'.dirs ≡ s.dirs
  pub others : (j : String) → (h.uuid s.ticks ≟ j) ≡ false → lookup j s'.live ≡ lookup j s.live
  pub fresh : IsFresh h one.0 s'.ticks
  pub kept :
      (j : String) (r : Instance)
      → find (instance_is j) db.instances ≡ some r
      → find (instance_is j) one.0.instances ≡ some r

module _ (h : Host) (sure : (k : ℕ) → h.succeeds k ≡ true) where
  Goes-tell_forked :
      (iid : String) (g : Guest) (i n : ℕ) (s : Engine)
      → lookup iid s.live ≡ some (running g)
      → Goes (tell_forked h iid i n) s (Told iid g i n s)
  unfolding tell_forked ◌>>=◌ continue now branch_of branch_told
  Goes-tell_forked iid g i n s here =
      let waits = Goes-wait_agent h sure iid g s here in
      let t = h.time waits.state.ticks in
      let s₂ : Engine = record waits.state { ticks = waits.state.ticks + 1 } in
      let asks = Goes-ask h sure iid (forked_msg i n t (branch_name i n)) g s₂ waits.post.here in
      let (gen, clock, is_ready) = forked_msg-ready i n t (branch_name i n) g in
      let answer = asks.post.0 ∙ is_ready in
      let held = asks.post.1 in
      record {
        value = branch_name i n;
        state = asks.state;
        runs = rw (waits.runs, asks.runs, answer) refl;
        post = record {
          named = refl;
          time = t;
          holds = record {
            aside = record {
              db = held.aside.db ∙ waits.post.aside.db;
              dirs = held.aside.dirs ∙ waits.post.aside.dirs;
              store = held.aside.store ∙ waits.post.aside.store;
              later = omega (arith, held.aside.later, waits.post.aside.later);
              others = λ j ne. held.aside.others j ne ∙ waits.post.aside.others j ne;
            };
            here = held.here;
          };
        };
      }

  module _ (distinct : (j k : ℕ) → (j == k) ≡ false → (h.uuid j ≟ h.uuid k) ≡ false)
      (snap : Snapshot) (g : Guest) (image : Bytes) (thaws : h.thaw image ≡ some g) where
    pub Goes-fork_child :
        (i n : ℕ) (db : Db) (s : Engine)
        → (dir_of snap.dir s).files.mem ≡ some image
        → IsFresh h db s.ticks
        → Goes (fork_child h snap i n db) s (Round h snap g i n s db)
    unfolding fork_child ◌>>=◌ continue now new_id lift pure
    Goes-fork_child i n db s mem fresh =
        let iid = h.uuid s.ticks in
        let s₁ : Engine = record s { ticks = s.ticks + 1 } in
        let boots = Goes-boot_vm h sure iid snap.dir (some snap.id) g image s₁ mem thaws in
        let tells = Goes-tell_forked iid g i n boots.state boots.post.here in
        let row : Instance = record {
          id = iid;
          run_id = snap.run_id;
          snapshot_id = some snap.id;
          state = row_runs;
          branch = tells.value;
          created_at = h.time tells.state.ticks;
        } in
        let db' : Db = record db { instances = db.instances ++ row ∷ [] } in
        let s₂ : Engine = record tells.state { ticks = tells.state.ticks + 1 } in
        let side =
          Aside-trans iid s₁ boots.state tells.state boots.post.aside tells.post.holds.aside in
        let absent = fresh s.ticks (omega arith) in
        record {
          value = (db', record { instance_id = iid; branch = tells.value });
          state = s₂;
          runs = rw (boots.runs, tells.runs, insert_fresh row db absent) refl;
          post = record {
            started = record {
              named = tells.post.named;
              time = tells.post.time;
              live = tells.post.holds.here;
              row = row;
              found = find-snoc_new (instance_is iid) db.instances row absent (≟_self iid);
              in_run = refl;
              under = refl;
              runs = refl;
              on_branch = tells.post.named;
            };
            drawn = refl;
            later = omega (arith, side.later);
            dirs = side.dirs;
            others = side.others;
            fresh = λ k le.
                find-snoc_other (instance_is (h.uuid k)) db.instances row
                  (fresh k (omega (arith, side.later)))
                  (distinct s.ticks k (ground (arith, side.later)));
            kept = λ j r e. find-append (instance_is j) db.instances (row ∷ []) r e;
          };
        }
