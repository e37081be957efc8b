-- ===== src/Engine/Taking.antt =====
-- A snapshot that meets no failure holds the guest as it was when it was stopped (`snapshot_instance` of
-- spikes/engine/kladosd.py).
use klados.Base.{
  ℕ, ◌+◌, ◌≤◌, ◌<◌, ◌≡◌, refl, ap, ◌∙◌, ◌⊎◌, String, true, false, Option, none, some, length, arith,
}
use klados.Base.Dict.{Dict, lookup, lookup-insert_self}
use klados.Base.Result.{Result}
use klados.Codec.{Bytes}
use klados.Cas.Sound.{IsSound}
use klados.Memory.{MemFiles, chunk_mem}
use klados.Memory.Image.{HasManifest, chunk_mem-Chunked, chunk_mem_returns}
use klados.Agent.{Guest, plain, handle}
use klados.Engine.{
  Files, SnapDir, Vm, Engine, Host, pure, gets, modify, or_raise, continue, ◌>>=◌, call,
}
use klados.Engine.Machines.{
  dir_or_empty, dir_of, set_dir, set_vm, quiesce, pause, write_snapshot, seal_scratch, resume,
  chunk,
}
use klados.Engine.Goes.{Goes, running, Goes-ask}
use klados.Engine.Runs.{take_image}

-- How far a snapshot is: what is in its directory, and what the VM is.
record Shot (sid iid : String) (s₀ : Engine) (files : MemFiles) (vm : Vm) (s : Engine)
    : Type 0 where
  db : s.db ≡ s₀.db
  store : s.store ≡ s₀.store
  later : s₀.ticks ≤ s.ticks
  in_dir : (dir_of sid s).files ≡ files
  live : lookup iid s.live ≡ some vm

-- … and the size of the VM state was noted
record Sized (sid iid : String) (s₀ : Engine) (files : MemFiles) (vm : Vm) (s : Engine)
    : Type 0 where
  shot : Shot sid iid s₀ files vm s
  size : ℕ
  noted : (dir_of sid s).vmstate ≡ some size

-- What a snapshot leaves: the image can be put together from the store, and the VM runs.
pub record Imaged (h : Host) (sid iid : String) (s₀ : Engine) (image : Bytes) (vm : Vm) (s : Engine)
    : Type 0 where
  pub db : s.db ≡ s₀.db
  pub later : s₀.ticks ≤ s.ticks
  pub live : lookup iid s.live ≡ some vm
  pub sound : IsSound h.codec s.store
  pub gone : (dir_of sid s).files.mem ≡ none
  pub holds : HasManifest h.codec s.store (dir_of sid s).files image

dir_of-set_dir : (sid : String) (d : SnapDir) (s : Engine) → dir_of sid (set_dir sid d s) ≡ d
dir_of-set_dir sid d s = ap dir_or_empty (lookup-insert_self sid d s.dirs)

abbrev with_mem : Bytes → MemFiles → MemFiles
with_mem image files = record files { mem = some image }

-- the guest after QUIESCE
abbrev pub stopped : Guest → Guest
stopped g = (handle (plain "QUIESCE") g).1

module _ (h : Host) (sure : (k : ℕ) → h.succeeds k ≡ true) (sid iid : String) (s₀ : Engine) where
  Goes-pause :
      (files : MemFiles) (vm : Vm) (s : Engine)
      → Shot sid iid s₀ files vm s
      → Goes (pause h iid vm) s (λ _ s'. Shot sid iid s₀ files (record vm { paused = true }) s')
  unfolding pause ◌>>=◌ continue call modify
  Goes-pause files vm s shot = record {
    value = tt;
    state = set_vm iid (record vm { paused = true }) (record s { ticks = s.ticks + 1 });
    runs = rw (sure s.ticks) refl;
    post = record {
      db = shot.db;
      store = shot.store;
      later = omega (arith, shot.later);
      in_dir = shot.in_dir;
      live = lookup-insert_self iid (record vm { paused = true }) s.live;
    };
  }

  Goes-write_snapshot :
      (files : MemFiles) (old vm : Vm) (s : Engine)
      → Shot sid iid s₀ files old s
      → Goes
          (write_snapshot h sid vm)
          s
          (λ _ s'. Sized sid iid s₀ (with_mem (h.freeze vm.guest) files) old s')
  unfolding write_snapshot ◌>>=◌ continue gets call modify
  Goes-write_snapshot files old vm s shot =
      let s₁ : Engine = record s { ticks = s.ticks + 1 } in
      let d : SnapDir = record (dir_of sid s) {
        files = with_mem (h.freeze vm.guest) (dir_of sid s).files;
        vmstate = some (h.vmstate_size s.ticks);
      } in
      record {
        value = tt;
        state = set_dir sid d s₁;
        runs = rw (sure s.ticks) refl;
        post = record {
          shot = record {
            db = shot.db;
            store = shot.store;
            later = omega (arith, shot.later);
            in_dir =
                ap (λ (e : SnapDir). e.files) (dir_of-set_dir sid d s₁)
                ∙ ap (with_mem (h.freeze vm.guest)) shot.in_dir;
            live = shot.live;
          };
          size = h.vmstate_size s.ticks;
          noted = ap (λ (e : SnapDir). e.vmstate) (dir_of-set_dir sid d s₁);
        };
      }

  Goes-seal_scratch :
      (layer : Option Files) (files : MemFiles) (vm : Vm) (s : Engine)
      → Sized sid iid s₀ files vm s
      → Goes (seal_scratch h sid layer) s (λ _ s'. Sized sid iid s₀ files vm s')
  unfolding seal_scratch pure modify
  Goes-seal_scratch none files vm s sized = record {
    value = tt;
    state = s;
    runs = refl;
    post = sized;
  }
  Goes-seal_scratch (some layer) files vm s sized =
      let d : SnapDir = record (dir_of sid s) { scratch = some layer } in
      record {
        value = tt;
        state = set_dir sid d s;
        runs = refl;
        post = record {
          shot = record {
            db = sized.shot.db;
            store = sized.shot.store;
            later = sized.shot.later;
            in_dir = ap (λ (e : SnapDir). e.files) (dir_of-set_dir sid d s) ∙ sized.shot.in_dir;
            live = sized.shot.live;
          };
          size = sized.size;
          noted = ap (λ (e : SnapDir). e.vmstate) (dir_of-set_dir sid d s) ∙ sized.noted;
        };
      }

  Goes-resume :
      (files : MemFiles) (old vm : Vm) (s : Engine)
      → Sized sid iid s₀ files old s
      → Goes (resume h iid vm) s (λ _ s'. Sized sid iid s₀ files (record vm { paused = false }) s')
  unfolding resume ◌>>=◌ continue call modify
  Goes-resume files old vm s sized = record {
    value = tt;
    state = set_vm iid (record vm { paused = false }) (record s { ticks = s.ticks + 1 });
    runs = rw (sure s.ticks) refl;
    post = record {
      shot = record {
        db = sized.shot.db;
        store = sized.shot.store;
        later = omega (arith, sized.shot.later);
        in_dir = sized.shot.in_dir;
        live = lookup-insert_self iid (record vm { paused = false }) s.live;
      };
      size = sized.size;
      noted = sized.noted;
    };
  }

  module _ (sent : (key : String) → h.sent key ≡ true) (sound : IsSound h.codec s₀.store)
      (cut : 0 < s₀.store.block) (tier : (s₀.store.rooted ≡ true) ⊎ (s₀.store.tiered ≡ true)) where
    -- the chunks of the image, and then the size of the VM state
    Goes-chunk :
        (image : Bytes) (files : MemFiles) (vm : Vm) (s : Engine)
        → Sized sid iid s₀ (with_mem image files) vm s
        → Goes (chunk h sid) s (λ n s'.
          Imaged h sid iid s₀ image vm s' × (size : ℕ) × ((dir_of sid s').vmstate ≡ some size))
    unfolding chunk
    Goes-chunk image files vm s sized =
        let d = dir_of sid s in
        let mem : d.files.mem ≡ some image = ap (λ (f : MemFiles). f.mem) sized.shot.in_dir in
        let same : s.store ≡ s₀.store = sized.shot.store in
        let gives = chunk_mem_returns h.codec h.sent d.files image s.store sent mem in
        let (_, files', store') = chunk_mem h.codec h.sent d.files s.store in
        let done =
          chunk_mem-Chunked h.codec h.sent d.files image s.store (length image) (rw same sound)
            (rw same cut) (rw same tier) mem gives in
        let s' : Engine = record (set_dir sid (record d { files = files' }) s) { store = store' } in
        let at = dir_of-set_dir sid (record d { files = files' }) s in
        record {
          value = length image;
          state = s';
          runs = ap (λ (r : Result ℕ). (r, s')) gives;
          post = (
            record {
              db = sized.shot.db;
              later = sized.shot.later;
              live = sized.shot.live;
              sound = done.sound;
              gone = ap (λ (e : SnapDir). e.files.mem) at ∙ done.raw_removed;
              holds = rw at done.holds;
            },
            sized.size,
            ap (λ (e : SnapDir). e.vmstate) at ∙ sized.noted,
          );
        }

    pub Goes-take_image :
        (g : Guest)
        → lookup iid s₀.live ≡ some (running g)
        → Goes
            (take_image h iid sid)
            s₀
            (λ _ s'. Imaged h sid iid s₀ (h.freeze (stopped g)) (running (stopped g)) s')
    unfolding take_image quiesce ◌>>=◌ continue gets modify or_raise pure
    Goes-take_image g here =
        let s₁ = set_dir sid (dir_of sid s₀) s₀ in
        let asks = Goes-ask h sure iid (plain "QUIESCE") g s₁ here in
        let held = asks.post.1 in
        let g' = stopped g in
        let files = (dir_of sid s₁).files in
        let first : Shot sid iid s₀ files (running g') asks.state = record {
          db = held.aside.db;
          store = held.aside.store;
          later = omega (arith, held.aside.later);
          in_dir = ap (λ (ds : Dict SnapDir). (dir_or_empty (lookup sid ds)).files) held.aside.dirs;
          live = held.here;
        } in
        let halt = Goes-pause files (running g') asks.state first in
        let still : Vm = record (running g') { paused = true } in
        let write = Goes-write_snapshot files still (running g') halt.state halt.post in
        let image = h.freeze g' in
        let layer = lookup iid write.state.disks in
        let seal = Goes-seal_scratch layer (with_mem image files) still write.state write.post in
        let goes_on = Goes-resume (with_mem image files) still (running g') seal.state seal.post in
        let stores = Goes-chunk image files (running g') goes_on.state goes_on.post in
        let (imaged, size, noted) = stores.post in
        record {
          value = stores.value + size;
          state = stores.state;
          runs =
              rw
                (
                  asks.runs, held.here, halt.runs, write.runs, seal.runs, goes_on.runs, stores.runs,
                  noted,
                )
                refl;
          post = imaged;
        }
