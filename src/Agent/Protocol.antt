-- ===== src/Agent/Protocol.antt =====
-- What the agent's messages change: only FORKED releases the workload, and only after the
-- generation has changed.
use klados.Base.{
  ℕ, String, ◌+◌, ◌≡◌, ◌≢◌, refl, sym, ◌∙◌, ◌⊎◌, inl, inr, true, false, Option, none, some, arith,
  Bool-cases,
}
use klados.Agent.{
  Content, blank, numeral, other, Guest, Msg, current_gen, ready, forked, forked_msg, is_type,
  handle,
}

current_gen-ne : (c : Option Content) → some (numeral (current_gen c + 1)) ≢ c
unfolding current_gen
current_gen-ne none e = cc
current_gen-ne (some blank) e = cc
current_gen-ne (some (other s)) e = cc
current_gen-ne (some (numeral n)) e = ground arith

-- FORKED, whatever it carries: the generation goes up by one, and the workload runs, released after it.
pub forked_gen :
    (m : Msg) (g : Guest)
    → ((forked m g).1.forkgen ≡ some (numeral (current_gen g.forkgen + 1)))
      × ((forked m g).1.stopped ≡ false)
      × ((forked m g).1.released ≡ some (numeral (current_gen g.forkgen + 1)))
unfolding forked
forked_gen m g = (ground arith, ground arith, ground arith)

-- The FORKED message of a fork is answered READY, and the workload runs.
pub forked_msg-ready :
    (index n true_time : ℕ) (context : String) (g : Guest)
    → (gen : ℕ) × (clock : Option ℕ) × ((handle (forked_msg index n true_time context) g).0
        ≡ ready (some index) gen clock)
unfolding handle is_type forked
forked_msg-ready index n true_time context g = (_, _, refl)

-- a message that is not FORKED
pub record Leaves (g g' : Guest) : Type 0 where
  pub forkgen : g'.forkgen ≡ g.forkgen
  pub stopped : (g'.stopped ≡ true) ⊎ (g'.stopped ≡ g.stopped)

not_check :
    (m : Msg) (g : Guest)
    → is_type "PING" m ≡ false
    → is_type "CHECK" m ≡ false
    → ((is_type "FORKED" m ≡ true) × (handle m g ≡ forked m g)) ⊎ Leaves g (handle m g).1
unfolding handle
not_check m g ping check = elim (Bool-cases (is_type "QUIESCE" m)) [
  | inl e ↦ inr (simp (ping, check, e) (record { forkgen = refl; stopped = inl refl }))
  | inr quiet ↦ elim (Bool-cases (is_type "BROWSER_CHECK" m)) [
    | inl e ↦ inr (simp (ping, check, quiet, e) (record { forkgen = refl; stopped = inr refl }))
    | inr browser ↦ elim (Bool-cases (is_type "FORKED" m)) [
      | inl e ↦ inl (e, simp (ping, check, quiet, browser, e))
      | inr unknown ↦ inr (
          simp (ping, check, quiet, browser, unknown)
            (record { forkgen = refl; stopped = inr refl }))
    ]
  ]
]

-- the two kinds of message
pub handle-cases :
    (m : Msg) (g : Guest)
    → ((is_type "FORKED" m ≡ true) × (handle m g ≡ forked m g)) ⊎ Leaves g (handle m g).1
unfolding handle
handle-cases m g = elim (Bool-cases (is_type "PING" m)) [
  | inl e ↦ inr (simp e (record { forkgen = refl; stopped = inr refl }))
  | inr ping ↦ elim (Bool-cases (is_type "CHECK" m)) [
    | inl e ↦ inr (simp (ping, e) (record { forkgen = refl; stopped = inr refl }))
    | inr check ↦ not_check m g ping check
  ]
]

-- A stopped workload is released only by FORKED, and only once the generation file has changed: at the
-- moment of the release the file shows the next generation, which is not what it showed before the
-- message, and it is not changed again.
pub release_changes_gen :
    (m : Msg) (g : Guest)
    → g.stopped ≡ true
    → (handle m g).1.stopped ≡ false
    → (is_type "FORKED" m ≡ true)
      × ((handle m g).1.released ≡ some (numeral (current_gen g.forkgen + 1)))
      × ((handle m g).1.released ≢ g.forkgen)
      × ((handle m g).1.forkgen ≡ (handle m g).1.released)
release_changes_gen m g s r = elim (handle-cases m g) [
  | inl (t, e) ↦
      let (gen, runs, freed) = forked_gen m g in
      (
        t,
        rw e freed,
        λ same. current_gen-ne g.forkgen (sym freed ∙ rw e at same),
        rw e (gen ∙ sym freed),
      )
  | inr leaves ↦ absurd (still_stopped leaves.stopped)
]
  where
    still_stopped : ((handle m g).1.stopped ≡ true) ⊎ ((handle m g).1.stopped ≡ g.stopped) → ⊥
    still_stopped (inl on) = cc
    still_stopped (inr same) = cc
