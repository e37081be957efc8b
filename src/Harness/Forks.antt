-- ===== src/Harness/Forks.antt =====
-- The experiments that fork one base: spikes/harness/spike_b.py, spike_c.py, spike_e_clock.py,
-- spike_g_protocol.py, spike_h_fidelity.py and spike_i_concurrent.py.
use Prim.Native.String.{◌++◌ as ◌<>◌}
use klados.Base.{ℕ, zero, suc, String, Bool, true, false, Option, none, some, List}
use klados.Base.Text.{str}
use klados.Agent.{Reply, plain, forked_msg}
use klados.Harness.Lab.{
  base, child, Uds, baked, of_fork, base_image, start, spawn, load, pause, snapshot, unlink, kill,
  World, Exec, pure, ◌>>=◌, ◌>>◌, attempt, always, ask, now, caught, finally, with_vm, each,
}

-- `f"you are branch {i} of {args.forks}"`
abbrev pub branch_text : ℕ → ℕ → String
branch_text i n = "you are branch " <> str i <> " of " <> str n

module _ (w : World) where
  -- `base.pause(); base.snapshot(snap, mem, diff=False)`
  unfoldable pub freeze : Exec (Unit {0})
  freeze = attempt w (pause base) >> attempt w (snapshot base base_image false)

  -- the `with` block of an experiment whose base has no vsock: spike_b, spike_c, spike_e
  unfoldable pub quiet_base : Exec (Unit {0})
  unfolding freeze
  quiet_base = with_vm w base (attempt w (start base false) >> freeze)

  -- `c._spawn(); c.load(snap, mem, backend="File", resume=True)`
  unfoldable pub restored : Option Uds → Bool → ℕ → Exec ℕ
  restored remap vsock i = do
    attempt w (spawn (child i) remap)
    attempt w (load (child i) base_image vsock)
    pure i

  -- `for c in children: c.kill()`, for the children from `i` on
  unfoldable pub kill_all : ℕ → ℕ → Exec (Unit {0})
  kill_all i zero = pure tt
  kill_all i (suc count) = always w (kill (child i)) >> kill_all (suc i) count

  -- spike_c, and spike_b with `fork_file_cow`: all children live at once
  unfoldable pub fork_file_cow : ℕ → Exec (List ℕ)
  unfolding restored
  fork_file_cow n = each w 0 n (restored none false)

  unfoldable pub spike_c : ℕ → Exec (Unit {0})
  unfolding quiet_base fork_file_cow kill_all
  spike_c n = quiet_base >> fork_file_cow n >> finally w (pure tt) (kill_all 0 n)

  -- spike_e: the clock before and after the pause
  unfoldable pub spike_e : Exec (ℕ × ℕ)
  unfolding quiet_base restored
  spike_e = do
    quiet_base
    host_at_snapshot ← now w
    restored none false 0
    host_at_resume ← now w
    always w (kill (child 0))
    pure (host_at_snapshot, host_at_resume)

  -- The FORKED request to a child: its answer, none where that raised, with `host_true`.
  unfoldable pub drive : Uds → ℕ → ℕ → Exec (Option Reply × ℕ)
  drive uds n i = do
    host_true ← now w
    let msg = forked_msg i n host_true (branch_text i n)
    r ← caught w (ask w uds msg >>= λ r. pure (some r)) none
    pure (r, host_true)

  -- the `with` block of spike_g and spike_i
  unfoldable pub quiesced_base : Exec (Unit {0})
  unfolding freeze
  quiesced_base = with_vm w base (
      attempt w (start base true)
      >> ask w baked (plain "PING")
      >> ask w baked (plain "QUIESCE")
      >> freeze)

  -- a round of spike_g's loop: one child after the other, on the baked socket
  unfoldable pub child_g : ℕ → ℕ → Exec (Option Reply × ℕ)
  unfolding restored drive
  child_g n i = do
    always w (unlink baked)
    restored none true i
    r ← drive baked n i
    always w (kill (child i))
    pure r

  unfoldable pub spike_g : ℕ → Exec (List (Option Reply × ℕ))
  unfolding quiesced_base child_g
  spike_g n = quiesced_base >> each w 0 n (child_g n)

  -- spike_h: the answers to CHECK, of the base and of the children, one after the other
  unfoldable pub child_h : ℕ → Exec Reply
  unfolding restored
  child_h i = do
    always w (unlink baked)
    restored none true i
    chk ← ask w baked (plain "CHECK")
    always w (kill (child i))
    pure chk

  unfoldable pub checked_base : Exec Reply
  unfolding freeze
  checked_base = with_vm w base (do
    attempt w (start base true)
    base_check ← ask w baked (plain "CHECK")
    freeze
    pure base_check)

  unfoldable pub spike_h : ℕ → Exec (Reply × List Reply)
  unfolding checked_base child_h
  spike_h n = do base_check ← checked_base; results ← each w 0 n child_h; pure (base_check, results)

  -- spike_i: all children at once, each with its own directory over the baked one
  unfoldable pub spike_i : ℕ → Exec (List (Option Reply × ℕ))
  unfolding quiesced_base restored drive kill_all
  spike_i n = do
    always w (unlink baked)
    quiesced_base
    each w 0 n (λ i. restored (some (of_fork i)) true i)
    readys ← each w 0 n (λ i. drive (of_fork i) n i)
    kill_all 0 n
    pure readys
