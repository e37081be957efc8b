-- ===== src/Harness/Measures.antt =====
-- The experiments that measure one VM: spikes/harness/smoke.py, spike_a.py and spike_f_latency.py.
use klados.Base.{ℕ, zero, suc, ◌-◌, Bool, true, false, List, [], ◌∷◌, ltb}
use klados.Harness.Lab.{
  base, restore, base_image, image, start, load, pause, resume, snapshot, World, Exec, pure, ◌>>=◌,
  ◌>>◌, attempt, now, with_vm,
}

-- The times of spike_a, in one unit.
pub record Times : Type 0 where
  pub pause_full : List ℕ
  pub pause_diff : List ℕ
  pub restore_ms : List ℕ

module _ (w : World) where
  -- `vm.pause(); vm.snapshot(snap, mem, diff=diff); vm.resume()`, and how long it took
  unfoldable pub paused_snapshot : ℕ → Bool → Exec ℕ
  paused_snapshot i diff = do
    t0 ← now w
    attempt w (pause base)
    attempt w (snapshot base (image i) diff)
    attempt w (resume base)
    t1 ← now w
    pure (t1 - t0)

  -- the warm restore of an iteration, always from the first snapshot
  unfoldable pub warm_restore : ℕ → Exec ℕ
  warm_restore i =
      with_vm w (restore i)
        (do t1 ← now w; attempt w (load (restore i) (image 0) false); t2 ← now w; pure (t2 - t1))

  -- `diff = i > 0`, and the list to which the time goes
  abbrev pub add_pause : ℕ → ℕ → ℕ → Times → Times
  add_pause zero pause_ms restored ts = record ts {
    pause_full = pause_ms ∷ ts.pause_full;
    restore_ms = restored ∷ ts.restore_ms;
  }
  add_pause (suc i) pause_ms restored ts = record ts {
    pause_diff = pause_ms ∷ ts.pause_diff;
    restore_ms = restored ∷ ts.restore_ms;
  }

  -- the iterations from `i` on, with the times in order
  unfoldable pub iterations : ℕ → ℕ → Exec Times
  unfolding paused_snapshot warm_restore
  iterations i zero = pure (record { pause_full = []; pause_diff = []; restore_ms = [] })
  iterations i (suc count) = do
    pause_ms ← paused_snapshot i (ltb 0 i)
    restored ← warm_restore i
    ts ← iterations (suc i) count
    pure (add_pause i pause_ms restored ts)

  unfoldable pub spike_a : ℕ → Exec Times
  unfolding iterations
  spike_a count = with_vm w base (attempt w (start base false) >> iterations 0 count)

  -- spike_f: the full snapshot and the one of what changed since
  unfoldable pub spike_f : Exec (ℕ × ℕ)
  unfolding paused_snapshot
  spike_f = with_vm w base (do
    attempt w (start base false)
    full_pause_ms ← paused_snapshot 0 false
    diff_pause_ms ← paused_snapshot 1 true
    pure (full_pause_ms, diff_pause_ms))

  unfoldable pub smoke : Exec (ℕ × ℕ)
  smoke = with_vm w base (do
    t0 ← now w
    attempt w (start base false)
    boot ← now w
    t1 ← now w
    attempt w (pause base)
    attempt w (snapshot base base_image false)
    taken ← now w
    attempt w (resume base)
    pure (boot - t0, taken - t1))
