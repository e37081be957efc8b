-- ===== src/Browser/Session.antt =====
-- The session of spikes/guest/browser_workload.py with the page: `page_ws`, `ev`, and the loops of `main`.
use Prim.Native.String.{◌++◌ as ◌<>◌}
use klados.Base.{
  ℕ, zero, suc, Bool, false, not, ◌&&◌, ◌||◌, Option, none, some, String, List, [], ◌∷◌, ◌++◌, ◌==◌,
  ◌≟◌, if◌then◌else◌, length, concat,
}
use klados.Base.Text.{str}
use klados.Base.Result.{Result, ok, err, failure}
use klados.Codec.{Bytes}
use klados.Vsock.{Stream}
use klados.Browser.{Mask, frame, Value, null, number, text, Answer, Cdp, recv, ◌>>=◌}

-- A target of `/json`, and the connection to one.
pub record Target : Type 0 where
  pub kind : String
  pub url : String

-- `page_ws`: the targets, none where the request raises, and then the address of a new page. An empty
-- text stands for no address.
unfoldable pub page_ws : Option (List Target) → String → String
page_ws none created = created
page_ws (some []) created = created
page_ws (some (t ∷ targets)) created =
    let others = page_ws (some targets) created in
    if (t.kind ≟ "page" || t.kind ≟ "tab") && not (t.url ≟ "") then t.url else others

-- `mid[0]`, what `send` has put on the socket, and what comes from it
pub record Page : Type 0 where
  pub mid : ℕ
  pub sent : Bytes
  pub incoming : Stream

-- `m and m.get("id") == mid[0]`
unfoldable pub answers : ℕ → Option Answer → Option Value
answers mid none = none
answers mid (some m) = elim m.id [
  | none ↦ none
  | some id ↦ if id == mid then some m.value else none
]

-- `return …` of the loop's body, or the next round
unfoldable pub settle : Option Value → Result (Value × Stream) → Stream → Result (Value × Stream)
settle none again rest = again
settle (some value) again rest = ok (value, rest)

-- `while True: m = ws.recv() …`, with fuel
unfoldable pub await_answer : Cdp → ℕ → ℕ → Stream → Result (Value × Stream)
unfolding answers settle
await_answer cdp zero mid chunks = err (failure "fuel")
await_answer cdp (suc fuel) mid chunks = do
  (m, rest) ← recv cdp chunks
  let again = await_answer cdp fuel mid rest
  settle (answers mid m) again rest

-- Every frame has two bytes at least.
abbrev pub frames_within : Stream → ℕ
frames_within chunks = suc (length (concat chunks))

-- `{sess}` in a format string
unfoldable pub show : Value → String
show null = "None"
show (number n) = str n
show (text t) = t

-- what a round writes to STATE, up to the newline, and `tail`
unfoldable pub report_and : String → Value → Value → Value → String
unfolding show
report_and tail sess beat ls =
    "token=" <> (show sess <> (" beat=" <> (show beat <> (" ls=" <> (show ls <> tail)))))

abbrev pub report : Value → Value → Value → String
report sess beat ls = report_and "\n" sess beat ls

module _ (cdp : Cdp) (urandom : ℕ → Mask) where
  -- a message is sent under the next id, and the answer to it awaited
  unfoldable pub request : String → String → Page → Result (Value × Page)
  unfolding await_answer
  request method param p = do
    let mid = suc p.mid
    framed ← frame (urandom mid) (cdp.dumps mid method param)
    (value, rest) ← await_answer cdp (frames_within p.incoming) mid p.incoming
    ok (value, record p { mid = mid; sent = p.sent ++ framed; incoming = rest })

  -- `ev`
  abbrev pub ev : String → Page → Result (Value × Page)
  ev expr p = request "Runtime.evaluate" expr p

  abbrev pub is_complete : Value → Bool
  is_complete (text t) = t ≟ "complete"
  is_complete null = false
  is_complete (number n) = false

  -- `for _ in range(50): …`, for what is left of the range
  unfoldable pub await_complete : ℕ → Page → Result Page
  unfolding request
  await_complete zero p = ok p
  await_complete (suc tries) p = do
    (state, p') ← ev "document.readyState" p
    let later = await_complete tries p'
    if is_complete state then ok p' else later

  -- the expression that stores the token, whose `repr` is in quotes
  abbrev pub set_token : String → String
  set_token token =
      "window.__session='" <> token <> "'; localStorage.setItem('sess','" <> token
      <> "'); document.title='" <> token <> "'; window.__beat=0; 'ok'"

  -- the first `try` of `main` after the connection: what is written to STATE, and the page unless it
  -- returns
  unfoldable pub set_up : String → Page → Result Page
  unfolding await_complete
  set_up token p = do
    (_, p1) ← request "Page.navigate" "http://127.0.0.1:8123/" p
    p2 ← await_complete 50 p1
    (_, p3) ← ev (set_token token) p2
    ok p3

  -- a round of the last loop: what it writes to STATE where no call raises
  unfoldable pub beat_round : Page → Result (String × Page)
  unfolding report_and request
  beat_round p = do
    (beat, p1) ← ev "window.__beat=(window.__beat||0)+1; window.__beat" p
    (sess, p2) ← ev "window.__session" p1
    (ls, p3) ← ev "localStorage.getItem('sess')" p2
    ok (report sess beat ls, p3)
