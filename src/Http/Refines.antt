-- ===== src/Http/Refines.antt =====
-- Each request makes at most the change that the specification allows the caller's project.
use klados.Base.{
  String, ◌≡◌, refl, ◌&&◌, Option, none, some, List, [], ◌∷◌, ◌≟◌, inl, inr, Bool-cases,
  if◌then◌else◌,
}
use klados.Schema.{Db, Table}
use klados.Schema.Change.{Change, nothing}
use klados.Engine.{Engine, Host, Exec, pure, ◌>>=◌}
use klados.Engine.Logic.{
  Leaves, leaves_rules, Leaves-pure, Leaves-raise, Moves, Moves-skip, Moves-Leaves, Moves-if,
  Moves-then-pure,
}
use klados.Engine.Accounts.{project_of_key}
use klados.Engine.Moves.{
  create_run-Moves, snapshot_instance-Moves, fork_snapshot-Moves, destroy_instance-Moves,
  create_project-Moves, Moves-owner, require_owner-Leaves,
}
use klados.Http.{
  health, Method, get, post, IntField, absent, number, not_int, Body, Request, Response,
  unauthorized, is_route, fork_count, get_timeline, get_diff, get_route, post_snapshot, post_fork,
  post_destroy, post_route, with_body, dispatch, authed, is_health, serve_path, serve,
}
use klados.Http.Path.{segments}

module _ (h : Host) (pid : String) where
  get_timeline-Leaves : (rid : String) → Leaves (get_timeline h pid rid)
  unfolding get_timeline
  get_timeline-Leaves rid = search (leaves_rules, require_owner-Leaves)

  get_diff-Leaves : (a b : String) → Leaves (get_diff h pid a b)
  unfolding get_diff
  get_diff-Leaves a b = search (leaves_rules, require_owner-Leaves) depth 9

  -- no GET changes the tables
  get_route-Leaves : (p : List String) → Leaves (get_route h pid p)
  unfolding get_route
  get_route-Leaves (p0 ∷ p1 ∷ []) = search leaves_rules depth 9
  get_route-Leaves (p0 ∷ p1 ∷ p2 ∷ p3 ∷ []) = search (leaves_rules, get_timeline-Leaves)
  get_route-Leaves (p0 ∷ p1 ∷ p2 ∷ p3 ∷ p4 ∷ []) = search (leaves_rules, get_diff-Leaves)
  get_route-Leaves _ = Leaves-pure _

  fork_count-Leaves : (f : IntField) → Leaves (fork_count f)
  unfolding fork_count
  fork_count-Leaves absent = Leaves-pure 4
  fork_count-Leaves (number n) = Leaves-pure n
  fork_count-Leaves not_int = Leaves-raise _

  module _ (db : Db) where
    abbrev Allowed : Db → Type 0
    Allowed = Change pid db

    stays : Allowed db
    stays = nothing refl

    -- a handler whose value is sent with 200
    answers :
        {A : Type 0} (m : Exec A) (f : A → Response)
        → Moves db Allowed m
        → Moves db Allowed (m >>= λ a. pure (f a))
    answers m f k = Moves-then-pure db Allowed m f k

    post_snapshot-Moves : (iid : String) (b : Body) → Moves db Allowed (post_snapshot h pid iid b)
    unfolding post_snapshot
    post_snapshot-Moves iid b =
        Moves-owner h pid db Table.instances iid _
          λ owned. answers _ _ (snapshot_instance-Moves h pid db iid _ owned)

    post_fork-Moves : (sid : String) (b : Body) → Moves db Allowed (post_fork h pid sid b)
    unfolding post_fork
    post_fork-Moves sid b = Moves-owner h pid db Table.snapshots sid _ λ owned.
        Moves-skip db Allowed _ _ stays (fork_count-Leaves b.n)
          λ n. answers _ _ (fork_snapshot-Moves h pid db sid n owned)

    post_destroy-Moves : (iid : String) → Moves db Allowed (post_destroy h pid iid)
    unfolding post_destroy
    post_destroy-Moves iid =
        Moves-owner h pid db Table.instances iid _
          λ owned. answers _ _ (destroy_instance-Moves h pid db iid owned)

    post_route-Moves : (p : List String) (b : Body) → Moves db Allowed (post_route h pid p b)
    unfolding post_route
    post_route-Moves (p0 ∷ p1 ∷ []) b =
        Moves-if db Allowed (p0 ≟ "v1" && p1 ≟ "projects") _ _
          (answers _ _ (create_project-Moves h pid db _))
          (Moves-if db Allowed (p0 ≟ "v1" && p1 ≟ "runs") _ _
            (answers _ _ (create_run-Moves h pid db _))
            (Moves-Leaves db Allowed _ stays (Leaves-pure _)))
    post_route-Moves (p0 ∷ p1 ∷ p2 ∷ p3 ∷ []) b =
        Moves-if db Allowed (is_route p1 "instances" p3 "snapshot") _ _ (post_snapshot-Moves p2 b) (
          Moves-if db Allowed (is_route p1 "snapshots" p3 "fork") _ _ (post_fork-Moves p2 b) (
            Moves-if db Allowed (is_route p1 "instances" p3 "destroy") _ _ (post_destroy-Moves p2)
              (Moves-Leaves db Allowed _ stays (Leaves-pure _))))
    post_route-Moves _ b = Moves-Leaves db Allowed _ stays (Leaves-pure _)

    dispatch-Moves :
        (m : Method) (p : List String) (body : Option Body)
        → Moves db Allowed (dispatch h m pid p body)
    unfolding dispatch with_body
    dispatch-Moves get p body = Moves-Leaves db Allowed _ stays (get_route-Leaves p)
    dispatch-Moves post p none = Moves-Leaves db Allowed _ stays (Leaves-raise _)
    dispatch-Moves post p (some b) = post_route-Moves p b

-- A request with a valid key, whatever its method, path and body and whether it succeeds or raises,
-- makes at most the change of the tables that the specification allows the key's project.
pub serve-Change :
    (h : Host) (r : Request) (s : Engine) {pid : String}
    → project_of_key h r.key s.db ≡ some pid
    → Change pid s.db (serve h r s).1.db
unfolding serve serve_path authed
serve-Change h r s {pid} e = elim (Bool-cases (is_health r.method (segments r.path))) [
  | inl public ↦ simp public (nothing refl)
  | inr other ↦
      simp (other, e) ((dispatch-Moves h pid s.db r.method (segments r.path) r.body).at s refl)
]

-- A request with no valid key changes nothing at all and is answered 401, but for GET /health, which
-- is answered 200 and changes nothing either.
pub serve-unauthorized :
    (h : Host) (r : Request) (s : Engine)
    → project_of_key h r.key s.db ≡ none
    → serve h r s
      ≡ (if is_health r.method (segments r.path) then (200, health) else unauthorized, s)
unfolding serve serve_path authed
serve-unauthorized h r s e = elim (Bool-cases (is_health r.method (segments r.path))) [
  | inl h' ↦ simp h'
  | inr other ↦ simp (other, e)
]
