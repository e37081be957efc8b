-- ===== src/Harness/Verdicts.antt =====
-- What the experiments of spikes/harness conclude: spike_c.py, spike_g_protocol.py,
-- spike_h_fidelity.py, spike_i_concurrent.py and spike_b.py.
use klados.Base.{
  ℕ, suc, ◌+◌, ◌*◌, String, Bool, true, false, ◌&&◌, Option, none, some, List, [], ◌∷◌, length, map,
  ltb, leb, ◌==◌, ◌≟◌, if◌then◌else◌,
}
use klados.Agent.{Reply, ready, check}
use klados.Harness.{Drawn, cross_child_collisions}
use klados.Harness.Forks.{branch_text}

-- A line of a console: its number and the three values drawn.
pub record Sample : Type 0 where
  pub seq : ℕ
  pub mt : ℕ
  pub o : ℕ
  pub k : ℕ

-- `streams[key][i]`: one column, for all children from the `i`-th on
unfoldable pub stream : (Sample → ℕ) → ℕ → List (List Sample) → Drawn
stream f i [] = []
stream f i (rows ∷ consoles) = (i, map f rows) ∷ stream f (suc i) consoles

pub data Mode : Type 0 where
  vanilla mitigated transparent : Mode

-- what spike_c says in the end
pub data Conclusion : Type 0 where
  -- OpenSSL collided or healed itself, and Mersenne Twister collided or not
  hazard : Bool → Bool → Conclusion
  works residual : Conclusion

unfoldable pub conclude : Mode → List (List Sample) → Conclusion
unfolding stream
conclude mode consoles =
    let mt = length (cross_child_collisions (stream (λ r. r.mt) 0 consoles)) in
    let o = length (cross_child_collisions (stream (λ r. r.o) 0 consoles)) in
    let fixed = if mt == 0 && o == 0 then works else residual in
    elim mode [ vanilla ↦ hazard (ltb 0 o) (ltb 0 mt) | mitigated ↦ fixed | transparent ↦ fixed ]

-- `r.get("status") == "READY"`
abbrev pub is_ready : Option Reply → Bool
is_ready (some (ready index gen clock)) = true
is_ready _ = false

unfoldable pub count_ready : List (Option Reply) → ℕ
count_ready [] = 0
count_ready (r ∷ readys) = let n = count_ready readys in if is_ready r then suc n else n

abbrev is_context : String → Option String → Bool
is_context want none = false
is_context want (some got) = got ≟ want

-- the consoles, from the `i`-th on, that show the child's own context
unfoldable pub count_contexts : ℕ → ℕ → List (Option String) → ℕ
count_contexts n i [] = 0
count_contexts n i (got ∷ contexts) =
    let more = count_contexts n (suc i) contexts in
    if is_context (branch_text i n) got then suc more else more

-- `if all_ready and zero_window and all_ctx`
unfoldable pub protocol_works :
    ℕ → List (Option Reply) → Drawn → Drawn → List (Option String) → Bool
unfolding count_ready count_contexts
protocol_works n readys mt_by o_by contexts =
    count_ready readys == n
    && (length (cross_child_collisions mt_by) == 0 && length (cross_child_collisions o_by) == 0)
    && count_contexts n 0 contexts == n

-- `if concurrent and …`, with the numbers of children that were live before and after
unfoldable pub concurrent_works :
    ℕ → ℕ → ℕ → List (Option Reply) → Drawn → Drawn → List (Option String) → Bool
unfolding protocol_works
concurrent_works n alive still readys mt_by o_by contexts =
    (alive == n && still == n) && protocol_works n readys mt_by o_by contexts

-- `pw.get(w, 0)`
unfoldable pub count_at : ℕ → List (ℕ × ℕ) → ℕ
count_at w [] = 0
count_at w ((v, c) ∷ pw) = if v == w then c else count_at w pw

-- `all(pw.get(w, 0) >= base_pw.get(w, 0) for w in base_pw)`
unfoldable pub all_reached : List (ℕ × ℕ) → List (ℕ × ℕ) → List (ℕ × ℕ) → Bool
unfolding count_at
all_reached pw base_pw [] = true
all_reached pw base_pw ((w, c) ∷ workers) =
    leb (count_at w base_pw) (count_at w pw) && all_reached pw base_pw workers

unfoldable pub sum_values : List (ℕ × ℕ) → ℕ
sum_values [] = 0
sum_values ((w, c) ∷ pw) = c + sum_values pw

abbrev same_session : Option String → Option String → Bool
same_session none none = true
same_session (some s) (some t) = s ≟ t
same_session _ _ = false

-- `ok` of spike_h, for the answers to CHECK of the base and of a child. An answer without `integrity`
-- is not "ok"; a base without counts has none.
unfoldable pub fidelity_ok : Reply → Reply → Bool
unfolding all_reached sum_values
fidelity_ok (check base_integ base_pw base_total base_session) (check integ pw total session) =
    integ ≟ "ok"
    && (all_reached pw base_pw base_pw && leb (length base_pw) (length pw))
    && ltb (sum_values base_pw) (sum_values pw)
    && same_session session base_session
fidelity_ok _ (check integ pw total session) =
    integ ≟ "ok" && ltb 0 (sum_values pw) && same_session session none
fidelity_ok _ _ = false

unfoldable pub sum : List ℕ → ℕ
sum [] = 0
sum (x ∷ xs) = x + sum xs

-- `verdict_mem` of spike_b: `sum_pss / naive < 0.5`; with nothing to divide by it is not a number
unfoldable pub sharing_observed : ℕ → ℕ → List ℕ → Bool
unfolding sum
sharing_observed forks base_pss child_pss =
    let naive = forks * base_pss in if naive == 0 then false else ltb (2 * sum child_pss) naive
