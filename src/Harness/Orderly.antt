-- ===== src/Harness/Orderly.antt =====
-- The experiments with one child at a time, and those without a vsock, keep to the order of the calls:
-- spike_c.py, spike_e_clock.py, spike_g_protocol.py and spike_h_fidelity.py of spikes/harness.
use klados.Base.{ℕ, ◌≡◌, ◌&&◌, refl, Bool, true, false, none, some, List, [], ◌∷◌}
use klados.Agent.{plain, forked_msg}
use klados.Harness.Lab.{
  Name, base, Uds, baked, base_image, start, pause, snapshot, request, World, Lab, attempt, ask,
  now, caught, pure, ◌>>=◌,
}
use klados.Harness.Forks.{freeze, branch_text, drive, quiesced_base}
use klados.Harness.Discipline.{
  Desk, Vm, Phase, running, paused, fresh, empty_desk, step, answers, is_full,
}
use klados.Harness.Leads.{
  Leads, Leads-pure, Leads-bind, Leads-attempt, Leads-ask, Leads-now, Leads-with_vm,
  Leads-caught-ask,
}

abbrev pub empty_lab : Lab
empty_lab = record { trace = []; asked = 0 }

abbrev pub vm_of : Name → Phase → Bool → Vm
vm_of n phase listens = record { name = n; place = baked; phase = phase; listens = listens }

abbrev pub one : ℕ → Vm → List Uds → Desk
one q v taken = record { vms = v ∷ []; taken = taken; quorum = q }

-- the baked socket's file is left, and no VM
abbrev pub left_over : ℕ → Desk
left_over q = record { vms = []; taken = baked ∷ []; quorum = q }

module _ (w : World) (q : ℕ) where
  pub Leads-freeze :
      (listens : Bool) (taken : List Uds)
      → Leads
          (freeze w)
          (one q (vm_of base running listens) taken)
          (one q (vm_of base paused listens) taken)
  unfolding freeze step
  Leads-freeze listens taken =
      let d₁ = one q (vm_of base running listens) taken in
      let d₂ = one q (vm_of base paused listens) taken in
      Leads-bind (attempt w (pause base)) _ d₁ d₂ d₂ (Leads-attempt w (pause base) d₁ d₂ refl)
        (λ _. Leads-attempt w (snapshot base base_image false) d₂ d₂ refl)

  -- One request, and what it is answered or that it raised.
  pub Leads-drive :
      (uds : Uds) (n i : ℕ) (d : Desk)
      → (answers uds d.vms && is_full uds d) ≡ true
      → Leads (drive w uds n i) d d
  unfolding drive step
  Leads-drive uds n i d h = Leads-bind (now w) _ d d d (Leads-now w d) (λ host_true.
      let msg = forked_msg i n host_true (branch_text i n) in
      let asks : step (request uds msg) d ≡ some d = rw h refl in
      Leads-bind (caught w (ask w uds msg >>= λ r. pure (some r)) none) _ d d d
        (Leads-caught-ask w uds msg (λ r. some r) none d asks) (λ r. Leads-pure (r, host_true) d))

  pub Leads-quiesced_base : Leads (quiesced_base w) (empty_desk q) (left_over q)
  unfolding quiesced_base step
  Leads-quiesced_base =
      let d₁ = one q (vm_of base fresh false) [] in
      let d₂ = one q (vm_of base running true) (baked ∷ []) in
      let d₃ = one q (vm_of base paused true) (baked ∷ []) in
      Leads-with_vm w base _ (empty_desk q) d₁ d₃ (left_over q) refl
        (Leads-bind _ _ d₁ d₂ d₃
          (Leads-bind _ _ d₁ d₂ d₂
            (Leads-bind _ _ d₁ d₂ d₂ (Leads-attempt w (start base true) d₁ d₂ refl)
              (λ _. Leads-ask w baked (plain "PING") d₂ refl))
            (λ _. Leads-ask w baked (plain "QUIESCE") d₂ refl))
          (λ _. Leads-freeze true (baked ∷ [])))
        refl
