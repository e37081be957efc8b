-- ===== src/Sdk/Routes.antt =====
-- The paths that the SDK of spikes/sdk/klados/__init__.py writes are read back by
-- spikes/engine/kladosd.py as their segments.
use Prim.Native.String.{◌++◌ as ◌<>◌}
use text.Mathlib.TextLemmas.{cons-append, nil-append}
use klados.Base.{String, ◌≡◌, refl, sym, ap, ◌∙◌, Bool, false, ◌||◌, List, [], ◌∷◌, All, arith}
use klados.Http.Path.{is_slash, lstrip, is_empty, rstrip, onto_first, split, segments}

-- a segment: not empty, and with no slash
unfoldable pub has_slash : String → Bool
has_slash String.[] = false
has_slash (String.◌∷◌ c s) = is_slash c || has_slash s

pub record IsSegment (s : String) : Type 0 where
  pub filled : is_empty s ≡ false
  pub plain : has_slash s ≡ false

-- "/a/b/c"
unfoldable pub join : List String → String
join [] = ""
join (p ∷ ps) = String.◌∷◌ "/" (p <> join ps)

split_plain : (p s : String) → has_slash p ≡ false → split (p <> String.◌∷◌ "/" s) ≡ p ∷ split s
unfolding has_slash split onto_first is_slash
split_plain String.[] s h = ap split (nil-append (String.◌∷◌ "/" s))
split_plain (String.◌∷◌ c p) s h =
    ap split (cons-append c p (String.◌∷◌ "/" s)) ∙ ground (arith, split_plain p s)

split_end : (p : String) → has_slash p ≡ false → split (p <> "") ≡ p ∷ []
unfolding has_slash split onto_first
split_end String.[] h = ap split (nil-append "")
split_end (String.◌∷◌ c p) h = ap split (cons-append c p "") ∙ ground (arith, split_end p)

split-join :
    (p : String) (ps : List String) → IsSegment p → All IsSegment ps → split (p <> join ps) ≡ p ∷ ps
unfolding join
split-join p [] h hs = split_end p h.plain
split-join p (q ∷ qs) h hs =
    split_plain p (q <> join qs) h.plain ∙ ap (λ l. p ∷ l) (split-join q qs hs.0 hs.1)

rstrip_plain : (p s : String) → has_slash p ≡ false → rstrip s ≡ s → rstrip (p <> s) ≡ p <> s
unfolding has_slash rstrip
rstrip_plain String.[] s h e = ap rstrip (nil-append s) ∙ e ∙ sym (nil-append s)
rstrip_plain (String.◌∷◌ c p) s h e =
    ap rstrip (cons-append c p s) ∙ ground (arith, rstrip_plain p s) ∙ sym (cons-append c p s)

filled-append : (p s : String) → is_empty p ≡ false → is_empty (p <> s) ≡ false
unfolding is_empty
filled-append String.[] s h = cc
filled-append (String.◌∷◌ c p) s h = ap is_empty (cons-append c p s)

rstrip-join : (ps : List String) → All IsSegment ps → rstrip (join ps) ≡ join ps
unfolding join rstrip is_slash
rstrip-join [] hs = refl
rstrip-join (p ∷ ps) hs =
    let same = rstrip_plain p (join ps) hs.0.plain (rstrip-join ps hs.1) in
    rw (same, filled-append p (join ps) hs.0.filled) refl

lstrip_plain : (p s : String) → is_empty p ≡ false → has_slash p ≡ false → lstrip (p <> s) ≡ p <> s
unfolding has_slash lstrip is_empty
lstrip_plain String.[] s f h = cc
lstrip_plain (String.◌∷◌ c p) s f h =
    ap lstrip (cons-append c p s) ∙ ground arith ∙ sym (cons-append c p s)

-- Segments that are not empty and have no slash are read back from the path that they make.
pub segments-join :
    (p : String) (ps : List String)
    → IsSegment p
    → All IsSegment ps
    → segments (join (p ∷ ps)) ≡ p ∷ ps
unfolding segments join lstrip is_slash
segments-join p ps h hs =
    ap (λ s. split (rstrip s)) (lstrip_plain p (join ps) h.filled h.plain)
    ∙ ap split (rstrip_plain p (join ps) h.plain (rstrip-join ps hs))
    ∙ split-join p ps h hs
