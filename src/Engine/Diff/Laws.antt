-- ===== src/Engine/Diff/Laws.antt =====
-- What `fs_diff` of spikes/engine/kladosd.py reports.
use text.Mathlib.Text.{starts_with}
use klados.Base.{
  ◌==◌, true, inl, inr, Option, none, Bool-cases, if◌then◌else◌, is_some, String, ◌≡◌, refl, ap,
  ◌∙◌, Bool, false, not, ◌&&◌, ◌||◌, some, List, [], ◌∷◌, arith, ◌≟◌, ≟_iff,
}
use klados.Base.Dict.{Dict, lookup, contains}
use klados.Engine.{Files}
use klados.Engine.Diff.{
  Stamp, walk_fs, insert_text, sorted, keys_where, changed, Diff, diff_of, fs_diff,
}

abbrev pub listed : String → List String → Bool
listed p [] = false
listed p (q ∷ ps) = q ≟ p || listed p ps

listed-insert_text :
    (p q : String) (ps : List String) → listed p (insert_text q ps) ≡ (q ≟ p || listed p ps)
unfolding insert_text
listed-insert_text p q [] = refl
listed-insert_text p q (r ∷ ps) = ground (arith, listed-insert_text p q ps)

listed-sorted : (p : String) (ps : List String) → listed p (sorted ps) ≡ listed p ps
unfolding sorted
listed-sorted p [] = refl
listed-sorted p (q ∷ ps) =
    listed-insert_text p q (sorted ps) ∙ ap (λ b. q ≟ p || b) (listed-sorted p ps)

listed-keys_where :
    (p : String) (test : String → Bool) (d : Dict Stamp)
    → listed p (keys_where test d) ≡ (contains p d && test p)
unfolding keys_where lookup
listed-keys_where p test [] = refl
listed-keys_where p test ((q, v) ∷ d) =
    ground (arith, listed-keys_where p test d, ≟_iff q p, λ (e : q ≡ p). ap test e)

-- The size and digest of the file at a path, if there is one that can be read.
pub readable : String → Files → Option Stamp
readable p [] = none
readable p ((rel, none) ∷ files) = readable p files
readable p ((rel, some stamp) ∷ files) = if rel ≟ p then some stamp else readable p files

-- Whether the path is of the file system's own directory.
abbrev pub own : String → Bool
own p = starts_with p "lost+found"

-- What the walk meets at a path.
lookup-walk_fs :
    (p : String) (files : Files)
    → lookup p (walk_fs files) ≡ (if own p then none else readable p files)
unfolding lookup walk_fs readable
lookup-walk_fs p [] = ground arith
lookup-walk_fs p ((rel, none) ∷ files) = lookup-walk_fs p files
lookup-walk_fs p ((rel, some stamp) ∷ files) = elim (Bool-cases (rel ≟ p)) [
  | inl eq ↦
      let same : rel ≡ p = (≟_iff rel p).0 eq in
      let at_p : own rel ≡ own p = ap own same in
      elim (Bool-cases (own p)) [
        | inl mine ↦ rw (at_p, mine) (lookup-walk_fs p files ∙ rw mine refl)
        | inr other ↦ rw (at_p, other, eq) refl
      ]
  | inr apart ↦ elim (Bool-cases (own rel)) [
    | inl mine ↦ rw (mine, apart) (lookup-walk_fs p files)
    | inr other ↦ rw (other, apart) (lookup-walk_fs p files)
  ]
]

-- Both files are there, and their sizes or their digests differ.
pub differ : Option Stamp → Option Stamp → Bool
differ (some (n, h)) (some (m, g)) = not (n == m) || not (h ≟ g)
differ _ _ = false

changed-differ : (a b : Option Stamp) → changed a b ≡ differ a b
unfolding changed differ
changed-differ (some (n, h)) (some (m, g)) = ground arith
changed-differ none b = refl
changed-differ (some a) none = refl

differ-some : (a b : Option Stamp) → (is_some a && differ a b) ≡ differ a b
unfolding differ
differ-some none b = refl
differ-some (some a) b = refl

contains-walk_fs :
    (p : String) (files : Files)
    → contains p (walk_fs files) ≡ (not (own p) && is_some (readable p files))
contains-walk_fs p files = ap is_some (lookup-walk_fs p files) ∙ ground arith

modified_if :
    (mine : Bool) (a b : Option Stamp)
    → (is_some (if mine then none else a)
        && changed (if mine then none else a) (if mine then none else b))
      ≡ (not mine && differ a b)
unfolding changed
modified_if true a b = refl
modified_if false a b = ap (λ c. is_some a && c) (changed-differ a b) ∙ differ-some a b

-- The diff of two sealed layers, for every path: it is listed as added if it is a readable file of the
-- second layer and not of the first, as removed in the opposite case, and as modified if it is one of
-- both, with another size or another digest; nothing below `lost+found` is listed, and nothing else.
pub fs_diff_lem :
    (p : String) (a b : Files)
    → let in_a = readable p a in
      let in_b = readable p b in
      (d : Diff) × (fs_diff (some a) (some b) ≡ some d)
      × (listed p d.added ≡ (not (own p) && is_some in_b && not (is_some in_a)))
      × (listed p d.removed ≡ (not (own p) && is_some in_a && not (is_some in_b)))
      × (listed p d.modified ≡ (not (own p) && differ in_a in_b))
unfolding fs_diff diff_of
fs_diff_lem p a b =
    let fa = walk_fs a in
    let fb = walk_fs b in
    let at_a = contains-walk_fs p a in
    let at_b = contains-walk_fs p b in
    (
      diff_of fa fb,
      refl,
      listed-sorted p _
          ∙ listed-keys_where p (λ q. not (contains q fa)) fb
          ∙ ground (arith, at_a, at_b),
      listed-sorted p _
          ∙ listed-keys_where p (λ q. not (contains q fb)) fa
          ∙ ground (arith, at_a, at_b),
      listed-sorted p _
          ∙ listed-keys_where p (λ q. changed (lookup q fa) (lookup q fb)) fa
          ∙ rw (lookup-walk_fs p a, lookup-walk_fs p b)
              (modified_if (own p) (readable p a) (readable p b)),
    )
