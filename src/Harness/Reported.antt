-- ===== src/Harness/Reported.antt =====
-- What the browser workload writes, the browser experiment reads (spikes/guest/browser_workload.py,
-- spikes/harness/spike_j_browser.py).
use Prim.Native.Char.{Char, code}
use Prim.Native.String.{◌++◌ as ◌<>◌}
use text.Mathlib.TextLemmas.{cons-append, nil-append}
use klados.Base.{◌≡◌, refl, sym, ap, ◌∙◌, ◌⊎◌, inl, inr, String, true, false, some, ==_self}
use klados.Browser.{Value}
use klados.Browser.Session.{show, report_and}
use klados.Harness.Browsers.{
  is_space, after, run, put_char, some_run, word_of, labelled, first, second, third, or_later,
  search,
}

-- no white space
abbrev pub IsInk : String → Type 0
IsInk String.[] = Unit
IsInk (String.◌∷◌ c s) = (is_space c ≡ false) × IsInk s

-- a word: not empty, and no white space
abbrev pub IsWord : String → Type 0
IsWord String.[] = ⊥
IsWord (String.◌∷◌ c s) = (is_space c ≡ false) × IsInk s

-- a text that is empty or begins with white space
abbrev pub IsStop : String → Type 0
IsStop t = (t ≡ "") ⊎ ((c : Char) × (s : String) × (t ≡ String.◌∷◌ c s) × (is_space c ≡ true))

run_stop : (t : String) → IsStop t → run t ≡ ("", t)
unfolding run
run_stop t (inl e) = rw e refl
run_stop t (inr (c, s, e, h)) = rw (e, h) refl

run-append : (a t : String) → IsInk a → IsStop t → run (a <> t) ≡ (a, t)
unfolding run
run-append String.[] t i st = ap run (nil-append t) ∙ run_stop t st
run-append (String.◌∷◌ c a) t i st =
    ap run (cons-append c a t) ∙ rw i.0 (ap (put_char c) (run-append a t i.1 st))

after-append : (p s : String) → after p (p <> s) ≡ some s
unfolding after
after-append String.[] s = ap some (nil-append s)
after-append (String.◌∷◌ c p) s =
    ap (after (String.◌∷◌ c p)) (cons-append c p s) ∙ rw (==_self (code c)) (after-append p s)

some_run-word : (a t : String) → IsWord a → some_run (a, t) ≡ some (a, t)
some_run-word String.[] t w = absurd w
some_run-word (String.◌∷◌ c a) t w = refl

IsWord-IsInk : (a : String) → IsWord a → IsInk a
IsWord-IsInk String.[] w = absurd w
IsWord-IsInk (String.◌∷◌ c a) w = w

labelled-append :
    (label a t : String) → IsWord a → IsStop t → labelled label (label <> (a <> t)) ≡ some (a, t)
unfolding labelled
labelled-append label a t w st =
    ap word_of (after-append label (a <> t))
    ∙ ap some_run (run-append a t (IsWord-IsInk a w) st)
    ∙ some_run-word a t w

-- a label that begins with a space stops the word before it
label-IsStop : (label s : String) → IsStop (String.◌∷◌ " " label <> s)
label-IsStop label s = inr (" ", label <> s, cons-append " " label s, refl)

-- If the three values print as words, the text that the workload writes for them is read back as these
-- words, with its newline or stripped of it.
pub search-report :
    (sess beat ls : Value) (tail : String)
    → IsWord (show sess)
    → IsWord (show beat)
    → IsWord (show ls)
    → (tail ≡ "") ⊎ (tail ≡ "\n")
    → search (report_and tail sess beat ls)
      ≡ some (record { token = show sess; beat = show beat; ls = show ls })
unfolding search report_and
search-report sess beat ls tail a b c t =
    let ends : IsStop tail = elim t [ inl e ↦ inl e | inr e ↦ inr ("\n", "", e, refl) ] in
    let last = show ls <> tail in
    let mid = " ls=" <> last in
    let rest = " beat=" <> (show beat <> mid) in
    let split = cons-append "t" "oken=" (show sess <> rest) in
    let one =
      labelled-append "token=" (show sess) rest a (label-IsStop "beat=" (show beat <> mid)) in
    let two = labelled-append " beat=" (show beat) mid b (label-IsStop "ls=" last) in
    let three = labelled-append " ls=" (show ls) tail c ends in
    ap search split
    ∙ ap (λ m. or_later (first m) (search ("oken=" <> (show sess <> rest))))
        (ap (labelled "token=") (sym split) ∙ one)
    ∙ ap (λ m. or_later (second (show sess) m) (search ("oken=" <> (show sess <> rest)))) two
    ∙ ap (λ m. or_later (third (show sess) (show beat) m) (search ("oken=" <> (show sess <> rest))))
        three
