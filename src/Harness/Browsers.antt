-- ===== src/Harness/Browsers.antt =====
-- The browser experiment, spikes/harness/spike_j_browser.py.
use Prim.Native.Char.{Char, code}
use klados.Base.{
  ℕ, zero, suc, ◌+◌, ◌-◌, ◌*◌, String, Bool, true, false, ◌&&◌, ◌||◌, Option, none, some, List,
  ◌==◌, ltb, leb, ◌≟◌, is_some, if◌then◌else◌,
}
use klados.Base.Result.{err, failure}
use klados.Agent.{Reply, browser, pong, plain}
use klados.Harness.Lab.{
  base, Uds, of_base, of_fork, spawn, start, kill, World, Exec, pure, ◌>>=◌, ◌>>◌, attempt, always,
  ask, caught, deadline, each,
}
use klados.Harness.Forks.{freeze, kill_all, restored}

-- `\s`, as far as it is below 256
abbrev pub is_space : Char → Bool
is_space c =
    (leb 9 (code c) && leb (code c) 13)
    || (leb 28 (code c) && leb (code c) 32)
    || code c == 133
    || code c == 160

-- what follows a prefix
unfoldable pub after : String → String → Option String
after String.[] s = some s
after (String.◌∷◌ c p) String.[] = none
after (String.◌∷◌ c p) (String.◌∷◌ d s) =
    let rest = after p s in if code c == code d then rest else none

abbrev pub put_char : Char → String × String → String × String
put_char c (word, rest) = (String.◌∷◌ c word, rest)

-- the longest run of `\S`, and what follows it
unfoldable pub run : String → String × String
run String.[] = ("", "")
run (String.◌∷◌ c s) =
    let more = run s in if is_space c then ("", String.◌∷◌ c s) else put_char c more

-- `\S+`: a run that is not empty. It ends where a space must follow, so that no shorter one fits.
abbrev pub some_run : String × String → Option (String × String)
some_run (String.[], rest) = none
some_run (String.◌∷◌ c word, rest) = some (String.◌∷◌ c word, rest)

abbrev pub word_of : Option String → Option (String × String)
word_of none = none
word_of (some rest) = some_run (run rest)

-- a label and the word after it
unfoldable pub labelled : String → String → Option (String × String)
unfolding after run
labelled label s = word_of (after label s)

pub record Beat : Type 0 where
  pub token : String
  pub beat : String
  pub ls : String

abbrev pub third : String → String → Option (String × String) → Option Beat
third token beat none = none
third token beat (some (ls, rest)) = some (record { token = token; beat = beat; ls = ls })

abbrev pub second : String → Option (String × String) → Option Beat
second token none = none
second token (some (beat, rest)) = third token beat (labelled " ls=" rest)

abbrev pub first : Option (String × String) → Option Beat
first none = none
first (some (token, rest)) = second token (labelled " beat=" rest)

abbrev pub or_later : Option Beat → Option Beat → Option Beat
or_later none later = later
or_later (some m) later = some m

-- `re.search(r"token=(\S+) beat=(\S+) ls=(\S+)", st)`
unfoldable pub search : String → Option Beat
unfolding labelled
search String.[] = none
search (String.◌∷◌ c s) =
    let later = search s in or_later (first (labelled "token=" (String.◌∷◌ c s))) later

abbrev text_of : Option String → String
text_of none = ""
text_of (some st) = st

abbrev pub token_of : Reply → Option String
token_of (browser token state) = token
token_of _ = none

abbrev pub state_of : Reply → Option Beat
state_of (browser token state) = search (text_of state)
state_of _ = none

-- the value of a decimal numeral, if the text is one: `isdigit`, and then `int`
unfoldable pub int_from : ℕ → String → Option ℕ
int_from n String.[] = some n
int_from n (String.◌∷◌ c s) =
    let more = int_from (n * 10 + (code c - 48)) s in
    if leb 48 (code c) && leb (code c) 57 then more else none

unfoldable pub int : String → Option ℕ
unfolding int_from
int String.[] = none
int (String.◌∷◌ c s) = int_from 0 (String.◌∷◌ c s)

abbrev pub less : Option ℕ → Option ℕ → Bool
less (some m) (some n) = ltb m n
less _ _ = false

abbrev same_token : Option String → String → Bool
same_token none base_token = false
same_token (some tok) base_token = tok ≟ base_token

-- `heap_ok and alive and ls_ok`, from two looks at a fork
unfoldable pub fork_ok : String → Option String → Option Beat → Option Beat → Bool
unfolding int
fork_ok base_token tok1 (some s1) (some s2) =
    same_token tok1 base_token && less (int s1.beat) (int s2.beat) && s2.ls ≟ base_token
fork_ok base_token tok1 _ _ = false

abbrev pub is_pong : Reply → Bool
is_pong pong = true
is_pong _ = false

abbrev pub has_token : Option String → Option String
has_token none = none
has_token (some tok) = if tok ≟ "" then none else some tok

-- `raise SystemExit(…)`
unfoldable pub exit : {A : Type 0} → Exec A
exit l = (err (failure "SystemExit"), l)

module _ (w : World) where
  -- `bstate`: the token and the state, nothing of either where the request raises
  unfoldable pub bstate : Uds → Exec (Option String × Option Beat)
  unfolding search
  bstate uds =
      caught w (ask w uds (plain "BROWSER_CHECK") >>= λ r. pure (token_of r, state_of r))
        (none, none)

  unfoldable pub poll_agent : ℕ → Uds → Exec Bool
  poll_agent zero uds = pure false
  poll_agent (suc rounds) uds = do
    up ← caught w (ask w uds (plain "PING") >>= λ r. pure (is_pong r)) false
    let later = poll_agent rounds uds
    if up then pure true else later

  unfoldable pub wait_agent : Uds → Exec Bool
  unfolding poll_agent
  wait_agent uds = deadline w >>= λ rounds. poll_agent rounds uds

  unfoldable pub poll_browser : ℕ → Uds → Exec (Option String)
  unfolding bstate
  poll_browser zero uds = pure none
  poll_browser (suc rounds) uds = do
    (tok, st) ← bstate uds
    let later = poll_browser rounds uds
    if is_some (has_token tok) then pure tok else later

  unfoldable pub wait_browser : Uds → Exec (Option String)
  unfolding poll_browser
  wait_browser uds = deadline w >>= λ rounds. poll_browser rounds uds

  -- the two looks at a fork
  unfoldable pub look : String → ℕ → Exec Bool
  unfolding wait_agent bstate fork_ok
  look base_token i = do
    wait_agent (of_fork i)
    (tok1, s1) ← bstate (of_fork i)
    (tok2, s2) ← bstate (of_fork i)
    pure (fork_ok base_token tok1 s1 s2)

  -- from the base's token on
  unfoldable pub fork_browsers : ℕ → Option String → Exec (List Bool)
  unfolding look
  fork_browsers n none = bstate of_base >> always w (kill base) >> exit
  fork_browsers n (some base_token) = do
    bstate of_base
    freeze w
    always w (kill base)
    each w 0 n (λ i. restored w (some (of_fork i)) true i)
    oks ← each w 0 n (look base_token)
    kill_all w 0 n
    pure oks

  -- `main`: for each fork whether it passed
  unfoldable pub spike_j : ℕ → Exec (List Bool)
  unfolding wait_browser fork_browsers exit
  spike_j n = do
    attempt w (spawn base (some of_base))
    attempt w (start base true)
    up ← wait_agent of_base
    let go = wait_browser of_base >>= fork_browsers n
    if up then go else exit
