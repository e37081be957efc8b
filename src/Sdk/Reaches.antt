-- ===== src/Sdk/Reaches.antt =====
-- Each request of the SDK, spikes/sdk/klados/__init__.py, reaches the handler of
-- spikes/engine/kladosd.py that it is meant for.
use Prim.Native.String.{◌++◌ as ◌<>◌}
use text.Mathlib.TextLemmas.{cons-append, nil-append, append_assoc, append-nil}
use klados.Base.{ℕ, String, ◌≡◌, refl, sym, ap, ◌∙◌, false, some, List, [], ◌∷◌}
use klados.Engine.{Engine, Host, pure, ◌>>=◌}
use klados.Engine.Runs.{Created, create_run}
use klados.Engine.Accounts.{project_of_key}
use klados.Http.{
  created, Method, get, post, number, Body, is_health, get_timeline, get_diff, get_route,
  post_snapshot, post_fork, post_destroy, post_route, caught, with_body, dispatch, authed,
  serve_path, serve,
}
use klados.Http.Path.{segments, is_empty, is_slash}
use klados.Sdk.{
  Sandbox, SnapshotRef, empty_body, call, create_request, snapshot_request, fork_request,
  diff_request, timeline_request, destroy_request,
}
use klados.Sdk.Routes.{IsSegment, join, has_slash, segments-join}

slash-append : (s : String) → "/" <> s ≡ String.◌∷◌ "/" s
slash-append s = cons-append "/" String.[] s ∙ ap (String.◌∷◌ "/") (nil-append s)

-- "/v1/…/" in front of a path
under :
    (a r : String)
    → ("/v1/" <> (a <> "/")) <> r ≡ String.◌∷◌ "/" ("v1" <> String.◌∷◌ "/" (a <> String.◌∷◌ "/" r))
under a r =
    append_assoc "/v1/" (a <> "/") r
    ∙ ap (λ t. "/v1/" <> t) (append_assoc a "/" r ∙ ap (λ t. a <> t) (slash-append r))
    ∙ cons-append "/" "v1/" (a <> String.◌∷◌ "/" r)
    ∙ ap (String.◌∷◌ "/") (
        append_assoc "v1" "/" (a <> String.◌∷◌ "/" r)
        ∙ ap (λ t. "v1" <> t) (slash-append (a <> String.◌∷◌ "/" r)))

literal : (p : String) → is_empty p ≡ false → has_slash p ≡ false → IsSegment p
literal p f h = record { filled = f; plain = h }

route4 :
    (a b id : String)
    → IsSegment a
    → IsSegment b
    → IsSegment id
    → segments (("/v1/" <> (a <> "/")) <> (id <> ("/" <> b))) ≡ "v1" ∷ a ∷ id ∷ b ∷ []
unfolding join has_slash is_empty is_slash
route4 a b id sa sb si =
    ap segments (
      under a (id <> ("/" <> b))
      ∙ ap (λ t. String.◌∷◌ "/" ("v1" <> String.◌∷◌ "/" (a <> String.◌∷◌ "/" (id <> t))))
          (slash-append b ∙ ap (String.◌∷◌ "/") (sym (append-nil b))))
    ∙ segments-join "v1" (a ∷ id ∷ b ∷ []) (literal "v1" refl refl) (sa, (si, (sb, tt)))

route5 :
    (id other : String)
    → IsSegment id
    → IsSegment other
    → segments (("/v1/" <> ("snapshots" <> "/")) <> (id <> ("/diff/" <> other)))
      ≡ "v1" ∷ "snapshots" ∷ id ∷ "diff" ∷ other ∷ []
unfolding join has_slash is_empty is_slash
route5 id other si so =
    ap segments (
      under "snapshots" (id <> ("/diff/" <> other))
      ∙ ap (λ t. String.◌∷◌ "/" ("v1" <> String.◌∷◌ "/" ("snapshots" <> String.◌∷◌ "/" (id <> t))))
          (tail other))
    ∙ segments-join "v1" ("snapshots" ∷ id ∷ "diff" ∷ other ∷ []) (literal "v1" refl refl)
        (literal "snapshots" refl refl, (si, (literal "diff" refl refl, (so, tt))))
  where
    tail : (t : String) → "/diff/" <> t ≡ String.◌∷◌ "/" ("diff" <> String.◌∷◌ "/" (t <> ""))
    tail t =
        append_assoc "/diff" "/" t
        ∙ ap (λ u. "/diff" <> u) (slash-append t ∙ ap (String.◌∷◌ "/") (sym (append-nil t)))
        ∙ cons-append "/" "diff" (String.◌∷◌ "/" (t <> ""))

module _ (h : Host) (key : String) (s : Engine) {pid : String}
    (valid : project_of_key h key s.db ≡ some pid) where
  reached :
      (m : Method) (path : String) (p : List String) (b : Body)
      → segments path ≡ p
      → is_health m p ≡ false
      → serve h (call key m path b) s ≡ caught h (dispatch h m pid p (some b)) s
  unfolding serve serve_path authed
  reached m path p b e other =
      ap (λ q. serve_path h (call key m path b) q s) e
      ∙ rw other (ap (λ o. authed h o m p (some b) s) valid)

  -- With a valid key, and ids that are not empty and have no slash, every request of the SDK is
  -- answered by the handler of its operation, for the key's project, with the SDK's arguments.
  pub requests_reach :
      (sb : Sandbox) (snap other : SnapshotRef) (image label : String) (n : ℕ)
      → IsSegment sb.instance_id
      → IsSegment sb.run_id
      → IsSegment snap.id
      → IsSegment other.id
      → (serve h (create_request key image) s
          ≡ caught h (create_run h pid image >>= λ (c : Created). pure (200, created c)) s)
        × (serve h (snapshot_request key sb label) s
            ≡ caught h
                (post_snapshot h pid sb.instance_id (record empty_body { label = some label }))
                s)
        × (serve h (fork_request key snap n) s
            ≡ caught h (post_fork h pid snap.id (record empty_body { n = number n })) s)
        × (serve h (destroy_request key sb) s ≡ caught h (post_destroy h pid sb.instance_id) s)
        × (serve h (diff_request key snap other) s ≡ caught h (get_diff h pid snap.id other.id) s)
        × (serve h (timeline_request key sb) s ≡ caught h (get_timeline h pid sb.run_id) s)
  unfolding create_request snapshot_request fork_request destroy_request diff_request
      timeline_request dispatch with_body post_route get_route is_health has_slash is_empty is_slash
      segments
  requests_reach sb snap other image label n si sr ss so = (
    reached post "/v1/runs" ("v1" ∷ "runs" ∷ []) _ refl refl,
    reached post _ _ _
        (route4 "instances" "snapshot" sb.instance_id (literal "instances" refl refl)
          (literal "snapshot" refl refl) si)
        refl,
    reached post _ _ _
        (route4 "snapshots" "fork" snap.id (literal "snapshots" refl refl)
          (literal "fork" refl refl) ss)
        refl,
    reached post _ _ _
        (route4 "instances" "destroy" sb.instance_id (literal "instances" refl refl)
          (literal "destroy" refl refl) si)
        refl,
    reached get _ _ _ (route5 snap.id other.id ss so) refl,
    reached get _ _ _
        (route4 "runs" "timeline" sb.run_id (literal "runs" refl refl)
          (literal "timeline" refl refl) sr)
        refl,
  )
