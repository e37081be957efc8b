-- ===== src/Agent.antt =====
-- spikes/guest/guest_agent.py: the agent that gates the workload inside a guest.
pub mod Protocol
pub mod Check
use klados.Base.{
  ℕ, zero, suc, ◌+◌, String, Bool, true, false, Option, none, some, List, [], ◌∷◌, ◌++◌, length,
  ◌≟◌, ◌==◌, is_some, if◌then◌else◌,
}

-- The text of a small file, stripped: nothing, a decimal numeral (`str(n)`), or something else.
pub data Content : Type 0 where
  blank : Content
  numeral : ℕ → Content
  other : String → Content

-- `branch.json`
pub record Branch : Type 0 where
  pub index : Option ℕ
  pub n : Option ℕ
  pub context : String

-- The workload's database, as `CHECK` reads it: the `worker` of each row of `writes` at the first
-- SELECT, and of those that a running workload has added until the second.
pub record AppDb : Type 0 where
  pub integrity : String
  pub writes : List ℕ
  pub meanwhile : List ℕ

-- What the agent sees and changes of its guest; times are in one unit.
pub record Guest : Type 0 where
  -- /run/klados/forkgen, if it can be read
  pub forkgen : Option Content
  pub branch : Option Branch
  -- /data/branch.txt, and whether /data can be written
  pub data_branch : Option String
  pub data_writable : Bool
  -- the workload has been sent SIGSTOP, and no SIGCONT since
  pub stopped : Bool
  -- what `forkgen` held when the workload was started or sent SIGCONT last
  pub released : Option Content
  pub pid : ℕ
  -- writes to /data that no `os.sync` has flushed
  pub unsynced : Bool
  pub clock : ℕ
  -- `clock_settime` is allowed
  pub may_set_clock : Bool
  pub app_db : Option AppDb
  pub session : Option String
  pub browser_token : Option String
  pub browser_state : Option String

-- A request, with its fields as `msg.get` gives them.
pub record Msg : Type 0 where
  pub type : Option String
  pub index : Option ℕ
  pub n : Option ℕ
  pub true_time : Option ℕ
  pub branch_context : Option String

pub data Reply : Type 0 where
  pong : Reply
  -- integrity, rows of each worker, total, session
  check : String → List (ℕ × ℕ) → ℕ → Option String → Reply
  check_error : Reply
  quiesced : ℕ → Reply
  browser : Option String → Option String → Reply
  -- index, generation, clock
  ready : Option ℕ → ℕ → Option ℕ → Reply
  unknown_type : Option String → Reply

-- `int(open(GEN).read().strip() or 0)`, and 0 on any exception
unfoldable pub current_gen : Option Content → ℕ
current_gen (some (numeral n)) = n
current_gen _ = 0

-- `_bump_gen`
pub bump_gen : Guest → ℕ × Guest
unfolding current_gen
bump_gen g = let gen = current_gen g.forkgen + 1 in (gen, record g { forkgen = some (numeral gen) })

-- `if ctx is not None`: branch.json, and /data/branch.txt if that can be written
pub write_branch : Msg → Option String → Guest → Guest
write_branch m none g = g
write_branch m (some ctx) g = record g {
  branch = some (record { index = m.index; n = m.n; context = ctx });
  data_branch = if g.data_writable then some ctx else g.data_branch;
  unsynced = if g.data_writable then true else g.unsynced;
}

-- `if "true_time" in msg and set_realtime(…): clock_set = time.time()`
pub step_clock : Option ℕ → Guest → Option ℕ × Guest
step_clock none g = (none, g)
step_clock (some t) g = if g.may_set_clock then (some t, record g { clock = t }) else (none, g)

-- `self.work.send_signal(signal.SIGCONT)`: from now on the workload may read the file.
continue_work : Guest → Guest
continue_work g = record g { stopped = false; released = g.forkgen }

pub forked : Msg → Guest → Reply × Guest
unfolding bump_gen write_branch step_clock continue_work
forked m g =
    let g₁ = write_branch m m.branch_context g in
    let (clock_set, g₂) = step_clock m.true_time g₁ in
    let (gen, g₃) = bump_gen g₂ in (ready m.index gen clock_set, continue_work g₃)

pub quiesce : Guest → Reply × Guest
quiesce g = (quiesced g.pid, record g { stopped = true; unsynced = false })

-- `SELECT worker, COUNT(*) FROM writes GROUP BY worker`
unfoldable pub count_worker : ℕ → List (ℕ × ℕ) → List (ℕ × ℕ)
count_worker w [] = (w, 1) ∷ []
count_worker w ((v, c) ∷ groups) =
    if v == w then (v, c + 1) ∷ groups else (v, c) ∷ count_worker w groups

unfoldable pub group_by_worker : List ℕ → List (ℕ × ℕ)
unfolding count_worker
group_by_worker [] = []
group_by_worker (w ∷ rows) = count_worker w (group_by_worker rows)

unfoldable pub check_db : Option AppDb → Option String → Reply
unfolding group_by_worker
check_db none session = check_error
check_db (some db) session =
    check db.integrity (group_by_worker db.writes) (length (db.meanwhile ++ db.writes)) session

unfoldable pub is_type : String → Msg → Bool
is_type t m = elim m.type [ none ↦ false | some s ↦ s ≟ t ]

-- `Agent.handle`
unfoldable pub handle : Msg → Guest → Reply × Guest
unfolding forked quiesce check_db is_type
handle m g =
    if is_type "PING" m
    then (pong, g)
    else if is_type "CHECK" m
    then (check_db g.app_db g.session, g)
    else if is_type "QUIESCE" m
    then quiesce g
    else if is_type "BROWSER_CHECK" m
    then (browser g.browser_token g.browser_state, g)
    else if is_type "FORKED" m
    then forked m g
    else (unknown_type m.type, g)

-- `Agent.__init__`: generation "0" is written before the workload starts.
unfoldable pub start : Guest → Guest
unfolding continue_work
start g = continue_work (record g { forkgen = some (numeral 0) })

abbrev pub plain : String → Msg
plain t = record { type = some t; index = none; n = none; true_time = none; branch_context = none }

-- the FORKED message of `fork_snapshot`
abbrev pub forked_msg : ℕ → ℕ → ℕ → String → Msg
forked_msg index n true_time context = record {
  type = some "FORKED";
  index = some index;
  n = some n;
  true_time = some true_time;
  branch_context = some context;
}
