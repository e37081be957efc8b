-- ===== src/Schema/Rows.antt =====
-- Laws of the queries and updates of a table.
use mathlib.Core.Path.{subst}
use klados.Base.{
  ◌≡◌, Bool, true, false, none, some, List, [], ◌∷◌, ◌++◌, arith, All, inl, inr, Bool-cases,
  is_some,
}
use klados.Schema.{find, update}

module _ {ℓ} {A : Type ℓ} where
  pub find-append :
      (p : A → Bool) (xs ys : List A) (a : A) → find p xs ≡ some a → find p (xs ++ ys) ≡ some a
  unfolding find
  find-append p [] ys a h = cc
  find-append p (x ∷ xs) ys a h = ground (arith, find-append p xs ys a)

  pub find-append_some :
      (p : A → Bool) (xs ys : List A)
      → is_some (find p xs) ≡ true
      → is_some (find p (xs ++ ys)) ≡ true
  unfolding find
  find-append_some p [] ys h = cc
  find-append_some p (x ∷ xs) ys h = ground (arith, find-append_some p xs ys)

  pub find-snoc :
      (p : A → Bool) (xs : List A) (x : A) → p x ≡ true → is_some (find p (xs ++ x ∷ [])) ≡ true
  unfolding find
  find-snoc p [] x h = ground arith
  find-snoc p (y ∷ xs) x h = ground (arith, find-snoc p xs x h)

  pub find-snoc_new :
      (p : A → Bool) (xs : List A) (x : A)
      → find p xs ≡ none
      → p x ≡ true
      → find p (xs ++ x ∷ []) ≡ some x
  unfolding find
  find-snoc_new p [] x e h = ground arith
  find-snoc_new p (y ∷ xs) x e h = ground (arith, find-snoc_new p xs x)

  pub find-snoc_other :
      (p : A → Bool) (xs : List A) (x : A)
      → find p xs ≡ none
      → p x ≡ false
      → find p (xs ++ x ∷ []) ≡ none
  unfolding find
  find-snoc_other p [] x e h = ground arith
  find-snoc_other p (y ∷ xs) x e h = ground (arith, find-snoc_other p xs x)

  pub find-passes : (p : A → Bool) (xs : List A) (a : A) → find p xs ≡ some a → p a ≡ true
  unfolding find
  find-passes p [] a h = cc
  find-passes p (x ∷ xs) a h = elim (Bool-cases (p x)) [
    | inl yes_ ↦ ground arith
    | inr no_ ↦ find-passes p xs a (ground arith)
  ]

  pub find-none_head : (p : A → Bool) (x : A) (xs : List A) → find p (x ∷ xs) ≡ none → p x ≡ false
  unfolding find
  find-none_head p x xs e = ground arith

  pub find-none_tail :
      (p : A → Bool) (x : A) (xs : List A) → find p (x ∷ xs) ≡ none → find p xs ≡ none
  unfolding find
  find-none_tail p x xs e = ground arith

  pub find-none-All :
      (p : A → Bool) (xs : List A) → find p xs ≡ none → All (λ (a : A). p a ≡ false) xs
  find-none-All p [] e = tt
  find-none-All p (x ∷ xs) e =
      (find-none_head p x xs e, find-none-All p xs (find-none_tail p x xs e))

module _ {ℓ κ μ} {A : Type ℓ} (P : A → Type κ) (Q : A → Type μ) where
  pub All-update_to :
      (p : A → Bool) (f : A → A) (xs : List A)
      → ((a : A) → P a → Q a)
      → ((a : A) → P a → p a ≡ true → Q (f a))
      → All P xs
      → All Q (update p f xs)
  unfolding update
  All-update_to p f [] j k h = tt
  All-update_to p f (x ∷ xs) j k h = elim (Bool-cases (p x)) [
    | inl hit ↦ rw hit (k x h.0 hit, All-update_to p f xs j k h.1)
    | inr miss ↦ rw miss (j x h.0, All-update_to p f xs j k h.1)
  ]

  pub All-both : (xs : List A) → All P xs → All Q xs → All (λ (a : A). P a × Q a) xs
  All-both [] p q = tt
  All-both (x ∷ xs) p q = ((p.0, q.0), All-both xs p.1 q.1)

module _ {ℓ κ} {A : Type ℓ} (P : A → Type κ) where
  pub All-find : (p : A → Bool) (xs : List A) (a : A) → All P xs → find p xs ≡ some a → P a
  unfolding find
  All-find p [] a h e = cc
  All-find p (x ∷ xs) a h e = elim (Bool-cases (p x)) [
    | inl hit ↦ subst P (some_inj (rw hit at e)) h.0
    | inr miss ↦ All-find p xs a h.1 (rw miss at e)
  ]
    where
      some_inj : {b c : A} → some b ≡ some c → b ≡ c
      some_inj q = cc

  pub All-snoc : (xs : List A) (x : A) → All P xs → P x → All P (xs ++ x ∷ [])
  All-snoc [] x h p = (p, tt)
  All-snoc (y ∷ xs) x h p = (h.0, All-snoc xs x h.1 p)

  pub All-update :
      (p : A → Bool) (f : A → A) (xs : List A)
      → ((a : A) → P a → p a ≡ true → P (f a))
      → All P xs
      → All P (update p f xs)
  unfolding update
  All-update p f [] k h = tt
  All-update p f (x ∷ xs) k h = elim (Bool-cases (p x)) [
    | inl hit ↦ rw hit (k x h.0 hit, All-update p f xs k h.1)
    | inr miss ↦ rw miss (h.0, All-update p f xs k h.1)
  ]
