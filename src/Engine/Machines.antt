-- ===== src/Engine/Machines.antt =====
-- Booting, asking and sealing a live microVM: `_boot_vm`, `_wait_agent`, and the calls of
-- `fc.vsock_request` and `Microvm` that kladosd.py makes.
use klados.Base.{
  ℕ, zero, suc, ◌+◌, String, Bool, true, false, Option, none, some, [], if◌then◌else◌,
}
use klados.Base.Dict.{lookup, insert, contains}
use klados.Base.Result.{Result, ok, err, failure}
use klados.Memory.{chunk_mem, reconstruct_mem}
use klados.Agent.{pong, Guest, Msg, Reply, handle, plain}
use klados.Engine.{
  Files, SnapDir, Vm, Engine, Host, Exec, ◌>>=◌, ◌>>◌, pure, gets, modify, or_raise, call,
}

-- a snapshot's directory, which `os.makedirs(sd, exist_ok=True)` makes
abbrev pub empty_dir : SnapDir
empty_dir = record {
  files = record { mem = none; manifest = none };
  vmstate = none;
  scratch = none;
}

abbrev pub dir_or_empty : Option SnapDir → SnapDir
dir_or_empty none = empty_dir
dir_or_empty (some d) = d

abbrev pub dir_of : String → Engine → SnapDir
dir_of sid s = dir_or_empty (lookup sid s.dirs)

abbrev pub set_dir : String → SnapDir → Engine → Engine
set_dir sid d s = record s { dirs = insert sid d s.dirs }

abbrev pub set_vm : String → Vm → Engine → Engine
set_vm iid vm s = record s { live = insert iid vm s.live }

-- the sealed disk layer that a boot inherits: `scratch_src and os.path.exists(scratch_src)`
unfoldable pub inherited : Option String → Engine → Option Files
inherited none s = none
inherited (some sid) s = (dir_of sid s).scratch

module _ (h : Host) where
  -- `fc.vsock_request` to a live guest. One whose answer is lost may have been carried out.
  unfoldable pub answered : ℕ → String → Msg → Vm → Exec Reply
  answered n iid m vm s =
      let (reply, guest) = handle m vm.guest in
      let s' = set_vm iid (record vm { guest = guest }) s in
      if h.succeeds n
      then (ok reply, s')
      else (err (failure "vsock"), if h.delivered n then s' else s)

  unfoldable pub asked : String → Msg → Option Vm → Exec Reply
  unfolding answered
  asked iid m none s = (err (failure "vsock"), record s { ticks = s.ticks + 1 })
  asked iid m (some vm) s =
      let s' = record s { ticks = s.ticks + 1 } in
      if vm.paused then (err (failure "vsock"), s') else answered s.ticks iid m vm s'

  unfoldable pub ask : String → Msg → Exec Reply
  unfolding asked
  ask iid m s = asked iid m (lookup iid s.live) s

  -- `.get("status") == "PONG"`, or an exception
  unfoldable pub is_pong : Result Reply → Bool
  is_pong (ok pong) = true
  is_pong r = false

  -- the polling loop of `_wait_agent`, with the rounds that the deadline leaves
  unfoldable pub poll : ℕ → String → Exec Bool
  unfolding is_pong ask
  poll zero iid s = (ok false, s)
  poll (suc rounds) iid s =
      let (r, s') = ask iid (plain "PING") s in
      let later = poll rounds iid s' in if is_pong r then (ok true, s') else later

  -- `_wait_agent`
  unfoldable pub wait_agent : String → Exec Bool
  unfolding poll
  wait_agent iid s = poll (h.rounds s.ticks) iid s

  -- `try: vsock_request(QUIESCE) … except Exception: pass`
  unfoldable pub quiesce : String → Exec (Unit {0})
  unfolding ask
  quiesce iid s = let (_, s') = ask iid (plain "QUIESCE") s in (ok tt, s')

  -- the scratch disk of a new instance
  unfoldable pub place_scratch : String → Option Files → Exec (Unit {0})
  place_scratch iid (some files) = modify (λ s. record s { disks = insert iid files s.disks })
  place_scratch iid none = do
    here ← gets (λ s. contains iid s.disks)
    if here
        then pure tt
        else do call h "mkfs.ext4"; modify (λ s. record s { disks = insert iid [] s.disks })

  -- `configure_and_start`, or `load` of the memory file in a snapshot's directory
  unfoldable pub boot_guest : Option String → Exec Guest
  boot_guest none = do call h "InstanceStart"; pure h.genesis
  boot_guest (some sid) = do
    call h "snapshot/load"
    file ← gets (λ s. (dir_of sid s).files.mem)
    image ← or_raise (failure "no memory file") file
    or_raise (failure "bad memory file") (h.thaw image)

  -- `_boot_vm`
  unfoldable pub boot_vm : String → Option String → Option String → Exec (Unit {0})
  unfolding place_scratch boot_guest inherited
  boot_vm iid load_from scratch_src = do
    layer ← gets (inherited scratch_src)
    place_scratch iid layer
    call h "firecracker"
    guest ← boot_guest load_from
    modify (set_vm iid (record { guest = guest; paused = false }))

  -- `Microvm.pause`
  unfoldable pub pause : String → Vm → Exec (Unit {0})
  pause iid vm = do call h "pause"; modify (set_vm iid (record vm { paused = true }))

  -- `Microvm.snapshot`: the memory file and the VM state are written
  unfoldable pub write_snapshot : String → Vm → Exec (Unit {0})
  write_snapshot sid vm = do
    size ← gets (λ s. h.vmstate_size s.ticks)
    call h "snapshot/create"
    modify (λ s.
        set_dir sid
          (record (dir_of sid s) {
            files = record (dir_of sid s).files { mem = some (h.freeze vm.guest) };
            vmstate = some size;
          })
          s)

  -- `if os.path.exists(src_scratch): shutil.copy(…)`
  unfoldable pub seal_scratch : String → Option Files → Exec (Unit {0})
  seal_scratch sid none = pure tt
  seal_scratch sid (some files) =
      modify (λ s. set_dir sid (record (dir_of sid s) { scratch = some files }) s)

  -- `Microvm.resume`
  unfoldable pub resume : String → Vm → Exec (Unit {0})
  resume iid vm = do call h "resume"; modify (set_vm iid (record vm { paused = false }))

  -- `_chunk_mem` and `_reconstruct_mem` on a snapshot's directory
  unfoldable pub chunk : String → Exec ℕ
  chunk sid s =
      let d = dir_of sid s in
      let (r, files, store) = chunk_mem h.codec h.sent d.files s.store in
      (r, record (set_dir sid (record d { files = files }) s) { store = store })

  unfoldable pub reconstruct : String → Exec (Unit {0})
  reconstruct sid s =
      let d = dir_of sid s in
      let (r, files, store) = reconstruct_mem h.codec d.files s.store in
      (r, record (set_dir sid (record d { files = files }) s) { store = store })
