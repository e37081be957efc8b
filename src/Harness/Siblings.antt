-- ===== src/Harness/Siblings.antt =====
-- The forks that live at once, each with a directory of its own (spikes/harness/spike_i_concurrent.py,
-- spikes/harness/spike_j_browser.py): their start and their end.
use klados.Base.{
  ℕ, zero, suc, ◌+◌, ◌≤◌, ◌<◌, ◌≡◌, ◌==◌, ◌&&◌, ap, length, refl, true, false, some, List, [], ◌∷◌,
  ◌++◌, ==_self, arith,
}
use klados.Harness.Lab.{
  base, base_image, child, of_fork, Uds, spawn, load, kill, World, attempt, always,
}
use klados.Harness.Forks.{restored, kill_all}
use klados.Harness.Discipline.{
  Desk, Vm, running, fresh, step, is_live, is_taken, find, put, answers, is_full, same_uds,
}
use klados.Harness.Leads.{Leads, Leads-pure, Leads-bind, Leads-attempt, Leads-always}

abbrev pub kid : ℕ → Vm
kid i = record { name = child i; place = of_fork i; phase = running; listens = true }

abbrev newborn : ℕ → Vm
newborn i = record { name = child i; place = of_fork i; phase = fresh; listens = false }

-- `count` children, from `i` on
unfoldable pub kids : ℕ → ℕ → List Vm
kids i zero = []
kids i (suc count) = kid i ∷ kids (suc i) count

-- the socket files of the first children, and the base's
unfoldable pub sockets : Uds → ℕ → List Uds
sockets u zero = u ∷ []
sockets u (suc i) = of_fork i ∷ sockets u i

abbrev pub with_kids : ℕ → Uds → ℕ → Desk
with_kids q u i = record { vms = kids 0 i; taken = sockets u i; quorum = q }

-- The base's socket is in no fork's directory.
abbrev pub IsApart : Uds → Type 0
IsApart u = (i : ℕ) → same_uds u (of_fork i) ≡ false

is_live-kids : (n i count : ℕ) → i + count ≤ n → is_live (child n) (kids i count) ≡ false
unfolding is_live kids
is_live-kids n i zero h = refl
is_live-kids n i (suc count) h = ground (arith, is_live-kids n (suc i) count (omega arith))

find-kids :
    (n i count : ℕ)
    → i + count ≤ n
    → find (child n) (kids i count ++ newborn n ∷ []) ≡ some (newborn n)
unfolding find kids
find-kids n i zero h = rw (==_self n) refl
find-kids n i (suc count) h = ground (arith, find-kids n (suc i) count (omega arith))

put-kids :
    (n i count : ℕ)
    → i + count ≡ n
    → put (kid n) (kids i count ++ newborn n ∷ []) ≡ kids i (suc count)
unfolding put kids
put-kids n i zero h = let same : i ≡ n = omega arith in rw (==_self n, same) refl
put-kids n i (suc count) h = ground (arith, put-kids n (suc i) count (omega arith))

is_taken-sockets :
    (u : Uds) (n i : ℕ) → IsApart u → i ≤ n → is_taken (of_fork n) (sockets u i) ≡ false
unfolding is_taken sockets
is_taken-sockets u n zero apart h = rw (apart n) refl
is_taken-sockets u n (suc i) apart h =
    let others = is_taken-sockets u n i apart (omega arith) in
    let other : (i == n) ≡ false = ground arith in rw (other, others) refl

answers-kids : (n i count : ℕ) → i ≤ n → n < i + count → answers (of_fork n) (kids i count) ≡ true
unfolding answers kids
answers-kids n i zero h lt = absurd (omega arith)
answers-kids n i (suc count) h lt =
    ground (arith, λ (q : suc i ≤ n). answers-kids n (suc i) count q (omega arith))

-- No child is the base.
is_live_base-kids : (i count : ℕ) → is_live base (kids i count) ≡ false
unfolding is_live kids
is_live_base-kids i zero = refl
is_live_base-kids i (suc count) = is_live_base-kids (suc i) count

length-kids : (i count : ℕ) → length (kids i count) ≡ count
unfolding kids
length-kids i zero = refl
length-kids i (suc count) = ap suc (length-kids (suc i) count)

-- Each child can be asked once all are live.
pub answers-all :
    (u : Uds) (i n : ℕ)
    → i < n
    → (answers (of_fork i) (kids 0 n) && is_full (of_fork i) (with_kids n u n)) ≡ true
answers-all u i n lt =
    rw (answers-kids i 0 n (omega arith) (omega arith), length-kids 0 n, ==_self n) refl

module _ (w : World) (q : ℕ) where
  -- The next child, with a socket file of its own.
  pub Leads-restored :
      (u : Uds) (i : ℕ)
      → IsApart u
      → Leads (restored w (some (of_fork i)) true i) (with_kids q u i) (with_kids q u (suc i))
  unfolding restored step sockets
  Leads-restored u i apart =
      let d : Desk = record { vms = kids 0 i ++ newborn i ∷ []; taken = sockets u i; quorum = q } in
      let absent = is_live-kids i 0 i (omega arith) in
      let spawns : step (spawn (child i) (some (of_fork i))) (with_kids q u i) ≡ some d =
        rw (absent, is_live_base-kids 0 i) refl in
      let found = find-kids i 0 i (omega arith) in
      let unbound = is_taken-sockets u i i apart (omega arith) in
      let placed = put-kids i 0 i (omega arith) in
      let loads : step (load (child i) base_image true) d ≡ some (with_kids q u (suc i)) =
        rw (found, unbound, placed) refl in
      Leads-bind (attempt w (spawn (child i) (some (of_fork i)))) _ (with_kids q u i) d
        (with_kids q u (suc i))
        (Leads-attempt w (spawn (child i) (some (of_fork i))) (with_kids q u i) d spawns)
        (λ _.
          Leads-bind (attempt w (load (child i) base_image true)) _ d (with_kids q u (suc i))
            (with_kids q u (suc i))
            (Leads-attempt w (load (child i) base_image true) d (with_kids q u (suc i)) loads)
            (λ _. Leads-pure i (with_kids q u (suc i))))

  pub Leads-kill_all :
      (taken : List Uds) (i count : ℕ)
      → Leads
          (kill_all w i count)
          (record { vms = kids i count; taken = taken; quorum = q })
          (record { vms = []; taken = taken; quorum = q })
  unfolding kill_all step kids
  Leads-kill_all taken i zero = Leads-pure tt (record { vms = []; taken = taken; quorum = q })
  Leads-kill_all taken i (suc count) =
      let d₁ : Desk = record { vms = kids i (suc count); taken = taken; quorum = q } in
      let d₂ : Desk = record { vms = kids (suc i) count; taken = taken; quorum = q } in
      let d₃ : Desk = record { vms = []; taken = taken; quorum = q } in
      let kills : step (kill (child i)) d₁ ≡ some d₂ = rw (==_self i) refl in
      Leads-bind (always w (kill (child i))) _ d₁ d₂ d₃
        (Leads-always w (kill (child i)) d₁ d₂ kills) (λ _. Leads-kill_all taken (suc i) count)
