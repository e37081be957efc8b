-- ===== src/Harness/Judged.antt =====
-- What the verdict on the fork protocol means (spikes/harness/spike_g_protocol.py).
use klados.Base.{
  ℕ, zero, suc, not, false, ◌≤◌, ◌≡◌, refl, sym, ◌∙◌, ap, String, true, ◌&&◌, Option, none, some,
  List, [], ◌∷◌, length, ◌==◌, ◌≟◌, ≟_iff, arith, All, inl, inr, Bool-cases,
}
use klados.Agent.{Reply}
use klados.Harness.{Drawn, among, cross_child_collisions}
use klados.Harness.Collisions.{kids_of, drew, collision_reported}
use klados.Harness.Forks.{branch_text}
use klados.Harness.Verdicts.{is_ready, count_ready, count_contexts, protocol_works}

count_ready-bound : (readys : List (Option Reply)) → count_ready readys ≤ length readys
unfolding count_ready
count_ready-bound [] = omega arith
count_ready-bound (r ∷ readys) = ground (arith, count_ready-bound readys)

count_ready-all :
    (readys : List (Option Reply))
    → count_ready readys ≡ length readys
    → All (λ r. is_ready r ≡ true) readys
unfolding count_ready
count_ready-all [] e = tt
count_ready-all (r ∷ readys) e = elim (Bool-cases (is_ready r)) [
  | inl yes_r ↦ (yes_r, count_ready-all readys (ground (arith, e)))
  | inr no_r ↦ absurd (ground (arith, e, count_ready-bound readys))
]

-- the contexts that the children were sent, from the `i`-th on
abbrev pub sent_contexts : ℕ → ℕ → ℕ → List (Option String)
sent_contexts n i zero = []
sent_contexts n i (suc count) = some (branch_text i n) ∷ sent_contexts n (suc i) count

count_contexts-bound :
    (n i : ℕ) (contexts : List (Option String)) → count_contexts n i contexts ≤ length contexts
unfolding count_contexts
count_contexts-bound n i [] = omega arith
count_contexts-bound n i (got ∷ contexts) = ground (arith, count_contexts-bound n (suc i) contexts)

count_contexts-all :
    (n i : ℕ) (contexts : List (Option String))
    → count_contexts n i contexts ≡ length contexts
    → contexts ≡ sent_contexts n i (length contexts)
unfolding count_contexts
count_contexts-all n i [] e = refl
count_contexts-all n i (none ∷ contexts) e =
    absurd (omega (arith, e, count_contexts-bound n (suc i) contexts))
count_contexts-all n i (some got ∷ contexts) e = elim (Bool-cases (got ≟ branch_text i n)) [
  | inl eq ↦
      let more : count_contexts n (suc i) contexts ≡ length contexts = ground (arith, e) in
      let same : got ≡ branch_text i n = (≟_iff got (branch_text i n)).0 eq in
      rw same (ap (◌∷◌ (some (branch_text i n))) (count_contexts-all n (suc i) contexts more))
  | inr other ↦ absurd (ground (arith, e, other, count_contexts-bound n (suc i) contexts))
]

length-zero : {A : Type 0} (xs : List A) → (length xs == 0) ≡ true → xs ≡ []
length-zero [] e = refl
length-zero (x ∷ xs) e = absurd (ground (arith, e))

no_collision :
    (v c d : ℕ) (drawn : Drawn)
    → cross_child_collisions drawn ≡ []
    → drew c v drawn ≡ true
    → drew d v drawn ≡ true
    → (c == d) ≡ true
unfolding kids_of among
no_collision v c d drawn e h g = elim (Bool-cases (c == d)) [
  | inl eq ↦ eq
  | inr other ↦
      let (seen, _) = collision_reported v c d drawn other h g in
      let none_seen : among c (kids_of v []) ≡ true =
        ap (λ s. among c (kids_of v s)) (sym e) ∙ seen in
      absurd (ground (arith, none_seen))
]

not_both :
    (v c d : ℕ) (drawn : Drawn)
    → cross_child_collisions drawn ≡ []
    → (drew c v drawn && drew d v drawn && not (c == d)) ≡ false
not_both v c d drawn e = elim (Bool-cases (drew c v drawn && drew d v drawn)) [
  | inl both ↦
      let same = no_collision v c d drawn e (ground (arith, both)) (ground (arith, both)) in
      ground (arith, both, same)
  | inr apart ↦ ground (arith, apart)
]

-- If spike_g says that the protocol works on n children, then every child answered READY, every console
-- shows the context that its child was sent, and no value of either generator was drawn by two
-- different children.
pub works_means :
    (n : ℕ) (readys : List (Option Reply)) (mt_by o_by : Drawn) (contexts : List (Option String))
    (v c d : ℕ)
    → length readys ≡ n
    → length contexts ≡ n
    → protocol_works n readys mt_by o_by contexts ≡ true
    → All (λ r. is_ready r ≡ true) readys
      × (contexts ≡ sent_contexts n 0 n)
      × ((drew c v mt_by && drew d v mt_by && not (c == d)) ≡ false)
      × ((drew c v o_by && drew d v o_by && not (c == d)) ≡ false)
unfolding protocol_works
works_means n readys mt_by o_by contexts v c d lr lc works =
    let all_ready : count_ready readys ≡ length readys = ground (arith, works, lr) in
    let all_ctx : count_contexts n 0 contexts ≡ length contexts = ground (arith, works, lc) in
    let mt_clean : cross_child_collisions mt_by ≡ [] =
      length-zero (cross_child_collisions mt_by) (ground (arith, works)) in
    let o_clean : cross_child_collisions o_by ≡ [] =
      length-zero (cross_child_collisions o_by) (ground (arith, works)) in
    (
      count_ready-all readys all_ready,
      count_contexts-all n 0 contexts all_ctx ∙ ap (sent_contexts n 0) lc,
      not_both v c d mt_by mt_clean,
      not_both v c d o_by o_clean,
    )
