-- ===== src/Engine/Untouched.antt =====
-- The calls on microVMs and files leave the committed tables alone.
use klados.Base.{
  ℕ, zero, suc, String, ◌≡◌, ◌∙◌, inl, inr, refl, Option, none, some, arith, Bool-cases,
}
use klados.Base.Dict.{insert}
use klados.Agent.{Msg, plain}
use klados.Engine.{Files, Vm, Engine, Host, modify}
use klados.Engine.Machines.{
  answered, asked, ask, is_pong, poll, wait_agent, quiesce, place_scratch, set_vm, boot_guest,
  boot_vm, pause, write_snapshot, seal_scratch, resume, chunk, reconstruct,
}
use klados.Engine.Logic.{Leaves, Leaves-modify, Leaves-bind, Leaves-gets, leaves_rules, Leaves-call}

module _ (h : Host) where
  asked-Leaves : (iid : String) (m : Msg) (o : Option Vm) → Leaves (asked h iid m o)
  unfolding asked answered
  asked-Leaves iid m none = record { at = λ s. refl }
  asked-Leaves iid m (some vm) = record { at = λ s. ground arith }

  pub ask-Leaves : (iid : String) (m : Msg) → Leaves (ask h iid m)
  unfolding ask
  ask-Leaves iid m = record { at = λ s. (asked-Leaves iid m _).at s }

  pub quiesce-Leaves : (iid : String) → Leaves (quiesce h iid)
  unfolding quiesce
  quiesce-Leaves iid = record { at = λ s. (ask-Leaves iid _).at s }

  poll-Leaves : (rounds : ℕ) (iid : String) (s : Engine) → (poll h rounds iid s).1.db ≡ s.db
  unfolding poll
  poll-Leaves zero iid s = refl
  poll-Leaves (suc rounds) iid s =
      let (r, s') = ask h iid (plain "PING") s in
      let asked_ = (ask-Leaves iid (plain "PING")).at s in
      elim (Bool-cases (is_pong h r)) [
        | inl yes_ ↦ rw yes_ asked_
        | inr no_ ↦ rw no_ (poll-Leaves rounds iid s' ∙ asked_)
      ]

  pub wait_agent-Leaves : (iid : String) → Leaves (wait_agent h iid)
  unfolding wait_agent
  wait_agent-Leaves iid = record { at = λ s. poll-Leaves (h.rounds s.ticks) iid s }

  set_disk-Leaves :
      (iid : String) (files : Files)
      → Leaves (modify (λ s. record s { disks = insert iid files s.disks }))
  set_disk-Leaves iid files = Leaves-modify _ (λ s. refl)

  set_vm-Leaves : (iid : String) (vm : Vm) → Leaves (modify (set_vm iid vm))
  set_vm-Leaves iid vm = Leaves-modify _ (λ s. refl)

  place_scratch-Leaves : (iid : String) (o : Option Files) → Leaves (place_scratch h iid o)
  unfolding place_scratch
  place_scratch-Leaves iid none = search (leaves_rules, set_disk-Leaves)
  place_scratch-Leaves iid (some files) = set_disk-Leaves iid files

  boot_guest-Leaves : (o : Option String) → Leaves (boot_guest h o)
  unfolding boot_guest
  boot_guest-Leaves none = search leaves_rules
  boot_guest-Leaves (some sid) = search leaves_rules depth 9

  pub boot_vm-Leaves : (iid : String) (o src : Option String) → Leaves (boot_vm h iid o src)
  unfolding boot_vm
  boot_vm-Leaves iid o src =
      search (leaves_rules, place_scratch-Leaves, boot_guest-Leaves, set_vm-Leaves) depth 9

  pub pause-Leaves : (iid : String) (vm : Vm) → Leaves (pause h iid vm)
  unfolding pause
  pause-Leaves iid vm = search (leaves_rules, set_vm-Leaves)

  pub resume-Leaves : (iid : String) (vm : Vm) → Leaves (resume h iid vm)
  unfolding resume
  resume-Leaves iid vm = search (leaves_rules, set_vm-Leaves)

  pub write_snapshot-Leaves : (sid : String) (vm : Vm) → Leaves (write_snapshot h sid vm)
  unfolding write_snapshot
  write_snapshot-Leaves sid vm =
      Leaves-bind _ _ (Leaves-gets _)
        (λ n. Leaves-bind _ _ (Leaves-call h _) (λ _. Leaves-modify _ (λ s. refl)))

  pub seal_scratch-Leaves : (sid : String) (o : Option Files) → Leaves (seal_scratch h sid o)
  unfolding seal_scratch
  seal_scratch-Leaves sid none = search leaves_rules
  seal_scratch-Leaves sid (some files) = Leaves-modify _ (λ s. refl)

  pub chunk-Leaves : (sid : String) → Leaves (chunk h sid)
  unfolding chunk
  chunk-Leaves sid = record { at = λ s. refl }

  pub reconstruct-Leaves : (sid : String) → Leaves (reconstruct h sid)
  unfolding reconstruct
  reconstruct-Leaves sid = record { at = λ s. refl }
