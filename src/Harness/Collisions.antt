-- ===== src/Harness/Collisions.antt =====
-- What the test for collisions reports.
use klados.Base.{
  ◌&&◌, ℕ, ◌≡◌, refl, ap, ◌∙◌, Bool, true, false, ◌||◌, List, [], ◌∷◌, length, leb, ◌==◌,
  if◌then◌else◌, arith,
}
use klados.Harness.{Drawn, Seen, among, add, add_all, collect, shared, cross_child_collisions}

-- the children that are listed for a value
unfoldable pub kids_of : ℕ → Seen → List ℕ
kids_of v [] = []
kids_of v ((w, kids) ∷ seen) = if w == v then kids else kids_of v seen

-- whether a child drew a value
unfoldable pub drew : ℕ → ℕ → Drawn → Bool
drew c v [] = false
drew c v ((child, values) ∷ drawn) = (child == c) && among v values || drew c v drawn

among-add :
    (c child v w : ℕ) (seen : Seen)
    → among c (kids_of w (add v child seen))
      ≡ (among c (kids_of w seen) || (child == c) && (v == w))
unfolding among add kids_of
among-add c child v w [] = ground arith
among-add c child v w ((u, kids) ∷ seen) = ground (arith, among-add c child v w seen)

among-add_all :
    (c child w : ℕ) (values : List ℕ) (seen : Seen)
    → among c (kids_of w (add_all child values seen))
      ≡ (among c (kids_of w seen) || (child == c) && among w values)
unfolding among add_all
among-add_all c child w [] seen = ground arith
among-add_all c child w (v ∷ values) seen =
    ground (arith, among-add_all c child w values (add v child seen), among-add c child v w seen)

among-collect :
    (c w : ℕ) (drawn : Drawn) (seen : Seen)
    → among c (kids_of w (collect drawn seen)) ≡ (among c (kids_of w seen) || drew c w drawn)
unfolding collect drew
among-collect c w [] seen = ground arith
among-collect c w ((child, values) ∷ drawn) seen = ground (
  arith,
  among-collect c w drawn (add_all child values seen),
  among-add_all c child w values seen,
)

two_kids :
    (c d : ℕ) (kids : List ℕ)
    → (c == d) ≡ false
    → among c kids ≡ true
    → among d kids ≡ true
    → leb 2 (length kids) ≡ true
unfolding among
two_kids c d [] n h g = cc
two_kids c d (x ∷ []) n h g = ground arith
two_kids c d (x ∷ y ∷ kids) n h g = ground arith

kids_of-shared :
    (v : ℕ) (seen : Seen)
    → leb 2 (length (kids_of v seen)) ≡ true
    → kids_of v (shared seen) ≡ kids_of v seen
unfolding kids_of shared
kids_of-shared v [] h = refl
kids_of-shared v ((w, kids) ∷ seen) h = ground (arith, kids_of-shared v seen)

-- No collision goes unreported: a value that two different children drew is reported, with both of
-- them.
pub collision_reported :
    (v c d : ℕ) (drawn : Drawn)
    → (c == d) ≡ false
    → drew c v drawn ≡ true
    → drew d v drawn ≡ true
    → (among c (kids_of v (cross_child_collisions drawn)) ≡ true)
      × (among d (kids_of v (cross_child_collisions drawn)) ≡ true)
unfolding cross_child_collisions drew kids_of
collision_reported v c d drawn n h g =
    let has_c = among-collect c v drawn [] ∙ h in
    let has_d = among-collect d v drawn [] ∙ g in
    let same =
      kids_of-shared v (collect drawn [])
        (two_kids c d (kids_of v (collect drawn [])) n has_c has_d) in
    (ap (among c) same ∙ has_c, ap (among d) same ∙ has_d)
