-- ===== src/Http.antt =====
-- The HTTP API of spikes/engine/kladosd.py: `H.do_GET` and `H.do_POST`.
pub mod Path
pub mod Refines
pub mod Consistency
pub mod Isolation
use klados.Base.{
  ℕ, String, Bool, true, false, ◌&&◌, Option, none, some, List, [], ◌∷◌, ◌≟◌, if◌then◌else◌,
}
use klados.Base.Dict.{lookup}
use klados.Base.Result.{Result, ok, err, Error, failure}
use klados.Schema.{Db, Run, Table}
use klados.Engine.{Files, Engine, Host, Exec, ◌>>=◌, ◌>>◌, pure, raise, gets, or_raise}
use klados.Engine.Machines.{dir_of}
use klados.Engine.Runs.{
  Created, Taken, Child, create_run, snapshot_instance, fork_snapshot, destroy_instance,
}
use klados.Engine.Accounts.{NewProject, create_project, project_of_key, require_owner}
use klados.Engine.Reports.{Timeline, timeline, list_runs, usage}
use klados.Engine.Diff.{Diff, fs_diff}
use klados.Http.Path.{segments}

pub data Method : Type 0 where
  get post : Method

-- `b.get("n", 4)`, and what `int` makes of it; a negative number counts as 0, as in `range`
pub data IntField : Type 0 where
  absent : IntField
  number : ℕ → IntField
  not_int : IntField

-- The body's fields, as `b.get` gives them.
pub record Body : Type 0 where
  pub name : Option String
  pub image : Option String
  pub label : Option String
  pub n : IntField

-- `body` is none where `json.loads` raises.
pub record Request : Type 0 where
  pub method : Method
  pub path : String
  pub key : String
  pub body : Option Body

pub data Payload : Type 0 where
  health : Payload
  message : String → Payload
  raised : Error → Payload
  runs : List Run → Payload
  used : ℕ × ℕ × ℕ → Payload
  tree : Timeline → Payload
  diff : Option Diff → Payload
  project : NewProject → Payload
  created : Created → Payload
  taken : Taken → Payload
  children : List Child → Payload
  destroyed : String → Payload

-- the status code and the JSON object of `_send`
abbrev pub Response : Type 0
Response = ℕ × Payload

abbrev pub not_found : Response
not_found = (404, message "not found")

abbrev pub unauthorized : Response
unauthorized = (401, message "missing or invalid API key (send X-Api-Key)")

abbrev pub or_default {ℓ} : {A : Type ℓ} → A → Option A → A
or_default d none = d
or_default d (some a) = a

unfoldable pub fork_count : IntField → Exec ℕ
fork_count absent = pure 4
fork_count (number n) = pure n
fork_count not_int = raise (failure "invalid literal for int()")

-- `if p[1] == a and p[3] == b`
abbrev pub is_route : String → String → String → String → Bool
is_route p1 a p3 b = p1 ≟ a && p3 ≟ b

-- `except Forbidden` and `except Exception`
unfoldable pub respond : Result Response → Response
respond (ok r) = r
respond (err (Error.forbidden e)) = (403, raised (Error.forbidden e))
respond (err (Error.key_error e)) = (500, raised (Error.key_error e))
respond (err (Error.failure e)) = (500, raised (Error.failure e))

-- `b = self._body()` stands inside the `try`
unfoldable pub with_body : Option Body → (Body → Exec Response) → Exec Response
with_body none f = raise (failure "bad JSON")
with_body (some b) f = f b

-- `p == ["health"]`, which only GET knows
unfoldable pub is_health : Method → List String → Bool
is_health get (p ∷ []) = p ≟ "health"
is_health _ _ = false

module _ (h : Host) where
  unfoldable pub get_timeline : String → String → Exec Response
  get_timeline pid rid = do
    require_owner pid Table.runs rid
    t ← gets (λ s. timeline rid s.db)
    pure (200, tree t)

  unfoldable pub get_diff : String → String → String → Exec Response
  get_diff pid a b = do
    require_owner pid Table.snapshots a
    require_owner pid Table.snapshots b
    d ← gets (λ s. fs_diff (dir_of a s).scratch (dir_of b s).scratch)
    pure (200, diff d)

  -- the `try` of `do_GET`, on the segments of the path
  unfoldable pub get_route : String → List String → Exec Response
  unfolding get_timeline get_diff
  get_route pid (p0 ∷ p1 ∷ []) =
      if p0 ≟ "v1" && p1 ≟ "runs"
      then (do rs ← gets (λ s. list_runs pid s.db); pure (200, runs rs))
      else if p0 ≟ "v1" && p1 ≟ "usage"
      then (do u ← gets (λ s. usage pid s.db); pure (200, used u))
      else pure not_found
  get_route pid (p0 ∷ p1 ∷ p2 ∷ p3 ∷ []) =
      if is_route p1 "runs" p3 "timeline" then get_timeline pid p2 else pure not_found
  get_route pid (p0 ∷ p1 ∷ p2 ∷ p3 ∷ p4 ∷ []) =
      if is_route p1 "snapshots" p3 "diff" then get_diff pid p2 p4 else pure not_found
  get_route pid _ = pure not_found

  unfoldable pub post_snapshot : String → String → Body → Exec Response
  post_snapshot pid iid b = do
    require_owner pid Table.instances iid
    t ← snapshot_instance h iid (or_default "snap" b.label)
    pure (200, taken t)

  unfoldable pub post_fork : String → String → Body → Exec Response
  unfolding fork_count
  post_fork pid sid b = do
    require_owner pid Table.snapshots sid
    n ← fork_count b.n
    cs ← fork_snapshot h sid n
    pure (200, children cs)

  unfoldable pub post_destroy : String → String → Exec Response
  post_destroy pid iid = do
    require_owner pid Table.instances iid
    i ← destroy_instance h iid
    pure (200, destroyed i)

  -- the `try` of `do_POST`, with the body read
  unfoldable pub post_route : String → List String → Body → Exec Response
  unfolding post_snapshot post_fork post_destroy
  post_route pid (p0 ∷ p1 ∷ []) b =
      if p0 ≟ "v1" && p1 ≟ "projects"
      then (do np ← create_project h (or_default "project" b.name); pure (200, project np))
      else if p0 ≟ "v1" && p1 ≟ "runs"
      then (do c ← create_run h pid (or_default "klados/agent" b.image); pure (200, created c))
      else pure not_found
  post_route pid (p0 ∷ p1 ∷ p2 ∷ p3 ∷ []) b =
      if is_route p1 "instances" p3 "snapshot"
      then post_snapshot pid p2 b
      else if is_route p1 "snapshots" p3 "fork"
      then post_fork pid p2 b
      else if is_route p1 "instances" p3 "destroy"
      then post_destroy pid p2
      else pure not_found
  post_route pid _ b = pure not_found

  abbrev pub caught : Exec Response → Engine → Response × Engine
  caught m s = let (r, s') = m s in (respond r, s')

  unfoldable pub dispatch : Method → String → List String → Option Body → Exec Response
  unfolding with_body
  dispatch get pid p body = get_route pid p
  dispatch post pid p body = with_body body (post_route pid p)

  -- `_authed`
  unfoldable pub authed :
      Option String → Method → List String → Option Body → Engine → Response × Engine
  unfolding dispatch respond
  authed none m p body s = (unauthorized, s)
  authed (some pid) m p body s = caught (dispatch m pid p body) s

  unfoldable pub serve_path : Request → List String → Engine → Response × Engine
  unfolding authed is_health
  serve_path r p s =
      if is_health r.method p
      then ((200, health), s)
      else authed (project_of_key h r.key s.db) r.method p r.body s

  -- one request, to its response
  unfoldable pub serve : Request → Engine → Response × Engine
  unfolding serve_path
  serve r s = serve_path r (segments r.path) s

  -- requests that are served one after the other, and their responses
  unfoldable pub serve_all : List Request → Engine → List Response × Engine
  unfolding serve
  serve_all [] s = ([], s)
  serve_all (r ∷ rs) s =
      let (a, s') = serve r s in let (more, s'') = serve_all rs s' in (a ∷ more, s'')
