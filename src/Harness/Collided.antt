-- ===== src/Harness/Collided.antt =====
-- The test for collisions reports nothing else: what it reports, two different children drew
-- (spikes/harness/spike_c.py).
use klados.Base.{
  ℕ, ◌≡◌, refl, true, false, List, [], ◌∷◌, length, leb, ◌==◌, arith, All, All-map, inl, inr,
  Bool-cases, ==_self,
}
use klados.Harness.{Drawn, Seen, among, add, add_all, collect, shared, cross_child_collisions}
use klados.Harness.Collisions.{drew}

-- no child is listed twice
abbrev Apart : List ℕ → Type 0
Apart [] = Unit
Apart (x ∷ xs) = (among x xs ≡ false) × Apart xs

module _ (P : ℕ → ℕ → Type 0) where
  -- the children that are listed for a value all satisfy `P`, and none is listed twice
  abbrev Listed : ℕ × List ℕ → Type 0
  Listed (v, kids) = Apart kids × All (λ c. P c v) kids

  Listed-add :
      (v child : ℕ) (seen : Seen) → P child v → All Listed seen → All Listed (add v child seen)
  unfolding add among
  Listed-add v child [] p h = (((refl, tt), (p, tt)), tt)
  Listed-add v child ((w, kids) ∷ seen) p h = elim (Bool-cases (w == v)) [
    | inl eq ↦ elim (Bool-cases (among child kids)) [
      | inl old ↦ rw (eq, old) h
      | inr new ↦
          let same : v ≡ w = ground (arith, eq) in
          rw (eq, new) (((new, h.0.0), (rw same at p, h.0.1)), h.1)
    ]
    | inr other ↦ rw other (h.0, Listed-add v child seen p h.1)
  ]

  Listed-add_all :
      (child : ℕ) (values : List ℕ) (seen : Seen)
      → All (λ v. P child v) values
      → All Listed seen
      → All Listed (add_all child values seen)
  unfolding add_all
  Listed-add_all child [] seen p h = h
  Listed-add_all child (v ∷ values) seen p h =
      Listed-add_all child values (add v child seen) p.1 (Listed-add v child seen p.0 h)

  Listed-collect :
      (drawn : Drawn) (seen : Seen)
      → All (λ (d : ℕ × List ℕ). All (λ v. P d.0 v) d.1) drawn
      → All Listed seen
      → All Listed (collect drawn seen)
  unfolding collect
  Listed-collect [] seen p h = h
  Listed-collect ((child, values) ∷ drawn) seen p h =
      Listed-collect drawn (add_all child values seen) p.1 (Listed-add_all child values seen p.0 h)

  -- two different children, for which `P` holds of the value
  abbrev Two : ℕ × List ℕ → Type 0
  Two (v, kids) = (c : ℕ) × (d : ℕ) × ((c == d) ≡ false) × P c v × P d v

  Two-Listed :
      (v : ℕ) (kids : List ℕ) → leb 2 (length kids) ≡ true → Listed (v, kids) → Two (v, kids)
  unfolding among
  Two-Listed v [] l h = absurd (ground (arith, l))
  Two-Listed v (c ∷ []) l h = absurd (ground (arith, l))
  Two-Listed v (c ∷ d ∷ kids) l ((n, a), (p, (q, r))) = (d, c, ground (arith, n), q, p)

  Two-shared : (seen : Seen) → All Listed seen → All Two (shared seen)
  unfolding shared
  Two-shared [] h = tt
  Two-shared ((v, kids) ∷ seen) h = elim (Bool-cases (leb 2 (length kids))) [
    | inl two ↦ rw two (Two-Listed v kids two h.0, Two-shared seen h.1)
    | inr one ↦ rw one (Two-shared seen h.1)
  ]

among_own : (values : List ℕ) → All (λ v. among v values ≡ true) values
unfolding among
among_own [] = tt
among_own (v ∷ values) = (
  ground (arith, ==_self v),
  All-map (λ u. among u values ≡ true) (λ u. among u (v ∷ values) ≡ true) values
      (λ u h. ground (arith, h)) (among_own values),
)

drew_own : (drawn : Drawn) → All (λ (d : ℕ × List ℕ). All (λ v. drew d.0 v drawn ≡ true) d.1) drawn
unfolding drew
drew_own [] = tt
drew_own ((child, values) ∷ drawn) = (
  All-map (λ v. among v values ≡ true) (λ v. drew child v ((child, values) ∷ drawn) ≡ true) values
      (λ v h. ground (arith, h, ==_self child)) (among_own values),
  All-map (λ (d : ℕ × List ℕ). All (λ v. drew d.0 v drawn ≡ true) d.1)
      (λ (d : ℕ × List ℕ). All (λ v. drew d.0 v ((child, values) ∷ drawn) ≡ true) d.1) drawn
      (λ d h.
        All-map (λ v. drew d.0 v drawn ≡ true) (λ v. drew d.0 v ((child, values) ∷ drawn) ≡ true)
          d.1 (λ v g. ground (arith, g)) h)
      (drew_own drawn),
)

-- Nothing is reported without cause: for each value that is reported there are two different children
-- that drew it.
pub collision_real :
    (drawn : Drawn)
    → All
        (λ (r : ℕ × List ℕ).
          (c : ℕ) × (d : ℕ) × ((c == d) ≡ false)
          × (drew c r.0 drawn ≡ true)
          × (drew d r.0 drawn ≡ true))
        (cross_child_collisions drawn)
unfolding cross_child_collisions
collision_real drawn =
    let P = λ (c : ℕ) (v : ℕ). drew c v drawn ≡ true in
    Two-shared P (collect drawn []) (Listed-collect P drawn [] (drew_own drawn) tt)
