-- ===== src/Engine/Logic.antt =====
-- Reasoning on the daemon's functions: which leave the committed tables alone, and where the tables
-- may go.
use mathlib.Core.Path.{subst}
use klados.Base.{String, ◌≡◌, refl, sym, ◌∙◌, Bool, Option, none, some, if◌then◌else◌, if_both}
use klados.Base.Result.{Result, ok, err, Error}
use klados.Schema.{Db}
use klados.Engine.{
  Engine, Host, Exec, pure, raise, gets, modify, lift, or_raise, commit, continue, ◌>>=◌, new_id,
  now, new_key, call,
}

-- The committed tables are as before, whether the function returns or raises.
pub record Leaves {A : Type 0} (m : Exec A) : Type 0 where
  pub at : (s : Engine) → (m s).1.db ≡ s.db

module _ {A : Type 0} where
  pub Leaves-pure : (a : A) → Leaves (pure a)
  unfolding pure
  Leaves-pure a = record { at = λ s. refl }

  pub Leaves-raise : (e : Error) → Leaves (raise {A = A} e)
  unfolding raise
  Leaves-raise e = record { at = λ s. refl }

  pub Leaves-gets : (f : Engine → A) → Leaves (gets f)
  unfolding gets
  Leaves-gets f = record { at = λ s. refl }

  pub Leaves-lift : (r : Result A) → Leaves (lift r)
  unfolding lift
  Leaves-lift r = record { at = λ s. refl }

  pub Leaves-or_raise : (e : Error) (o : Option A) → Leaves (or_raise e o)
  unfolding or_raise
  Leaves-or_raise e none = record { at = λ s. refl }
  Leaves-or_raise e (some a) = record { at = λ s. refl }

  pub Leaves-if : (b : Bool) (m n : Exec A) → Leaves m → Leaves n → Leaves (if b then m else n)
  Leaves-if b m n h g = if_both (λ k. Leaves k) b m n h g

pub Leaves-modify : (f : Engine → Engine) → ((s : Engine) → (f s).db ≡ s.db) → Leaves (modify f)
unfolding modify
Leaves-modify f h = record { at = h }

module _ {A B : Type 0} where
  Leaves-continue :
      (r : Result A) (f : A → Exec B) (s : Engine)
      → ((a : A) → Leaves (f a))
      → (continue r f s).1.db ≡ s.db
  unfolding continue
  Leaves-continue (ok a) f s h = (h a).at s
  Leaves-continue (err e) f s h = refl

  pub Leaves-bind :
      (m : Exec A) (f : A → Exec B) → Leaves m → ((a : A) → Leaves (f a)) → Leaves (m >>= f)
  unfolding ◌>>=◌
  Leaves-bind m f h g = record { at = λ s. Leaves-continue (m s).0 f (m s).1 g ∙ h.at s }

module _ (h : Host) where
  pub Leaves-new_id : Leaves (new_id h)
  unfolding new_id
  Leaves-new_id = record { at = λ s. refl }

  pub Leaves-now : Leaves (now h)
  unfolding now
  Leaves-now = record { at = λ s. refl }

  pub Leaves-new_key : Leaves (new_key h)
  unfolding new_key
  Leaves-new_key = record { at = λ s. refl }

  pub Leaves-call : (what : String) → Leaves (call h what)
  unfolding call
  Leaves-call what = record { at = λ s. refl }

pub ruleset leaves_rules = (
  Leaves-pure, Leaves-raise, Leaves-gets, Leaves-lift, Leaves-or_raise, Leaves-if, Leaves-bind,
  Leaves-new_id, Leaves-now, Leaves-new_key, Leaves-call,
)

-- From the tables `db`, the function ends with tables that satisfy `P`.
pub record Moves {A : Type 0} (db : Db) (P : Db → Type 0) (m : Exec A) : Type 0 where
  pub at : (s : Engine) → s.db ≡ db → P (m s).1.db

module _ {A : Type 0} (db : Db) (P : Db → Type 0) where
  pub Moves-Leaves : (m : Exec A) → P db → Leaves m → Moves db P m
  Moves-Leaves m p l = record { at = λ s e. rw (l.at s, e) p }

  pub Moves-if :
      (b : Bool) (m n : Exec A) → Moves db P m → Moves db P n → Moves db P (if b then m else n)
  Moves-if b m n h g = if_both (λ k. Moves db P k) b m n h g

module _ {A B : Type 0} (db : Db) (P : Db → Type 0) where
  Moves-continue :
      (r : Result A) (f : A → Exec B) (s : Engine)
      → s.db ≡ db
      → P db
      → ((a : A) → r ≡ ok a → Moves db P (f a))
      → P (continue r f s).1.db
  unfolding continue
  Moves-continue (ok a) f s e p h = (h a refl).at s e
  Moves-continue (err x) f s e p h = rw e p

  -- a part that leaves the tables alone
  pub Moves-skip :
      (m : Exec A) (f : A → Exec B)
      → P db
      → Leaves m
      → ((a : A) → Moves db P (f a))
      → Moves db P (m >>= f)
  unfolding ◌>>=◌
  Moves-skip m f p l h = record {
    at = λ s e. Moves-continue (m s).0 f (m s).1 (l.at s ∙ e) p (λ a _. h a);
  }

  -- a part whose value is known to come of a pure computation
  pub Moves-lift :
      (r : Result A) (f : A → Exec B)
      → P db
      → ((a : A) → r ≡ ok a → Moves db P (f a))
      → Moves db P (lift r >>= f)
  unfolding ◌>>=◌
  Moves-lift r f p h = record { at = λ s e. Moves-continue r f s e p h }

  pub Moves-or_raise :
      (x : Error) (o : Option A) (f : A → Exec B)
      → P db
      → ((a : A) → o ≡ some a → Moves db P (f a))
      → Moves db P (or_raise x o >>= f)
  unfolding ◌>>=◌
  Moves-or_raise x none f p h = record { at = λ s e. rw e p }
  Moves-or_raise x (some a) f p h = record { at = λ s e. (h a refl).at s e }

  -- a query
  pub Moves-query :
      (g : Db → A) (f : A → Exec B) → Moves db P (f (g db)) → Moves db P (gets (λ s. g s.db) >>= f)
  unfolding ◌>>=◌
  Moves-query g f h = record {
    at = λ s e. subst (λ (d : Db). P (f (g d) s).1.db) (sym e) (h.at s e);
  }

module _ {B : Type 0} (db : Db) (P : Db → Type 0) where
  -- the commit, after which nothing changes the tables
  pub Moves-commit :
      (db' : Db) (f : Unit {0} → Exec B) → P db' → Leaves (f tt) → Moves db P (commit db' >>= f)
  unfolding ◌>>=◌
  Moves-commit db' f p l = record { at = λ s e. rw (l.at (record s { db = db' })) p }

-- Every value that the function returns satisfies `Post`.
pub record Yields {A : Type 0} (Post : A → Type 0) (m : Exec A) : Type 0 where
  pub at : (s : Engine) (a : A) → (m s).0 ≡ ok a → Post a

pub Yields-pure : {A : Type 0} (Post : A → Type 0) (a : A) → Post a → Yields Post (pure a)
unfolding pure
Yields-pure {A} Post a p = record { at = λ s b e. subst Post (ok_injective a b e) p }
  where
    ok_injective : (a b : A) → ok a ≡ ok b → a ≡ b
    ok_injective a b e = cc

module _ {A B : Type 0} (Post : B → Type 0) where
  Yields-continue :
      (r : Result A) (f : A → Exec B) (s : Engine) (b : B)
      → ((a : A) → r ≡ ok a → Yields Post (f a))
      → (continue r f s).0 ≡ ok b
      → Post b
  unfolding continue
  Yields-continue (ok a) f s b h e = (h a refl).at s b e
  Yields-continue (err x) f s b h e = cc

  pub Yields-skip :
      (m : Exec A) (f : A → Exec B) → ((a : A) → Yields Post (f a)) → Yields Post (m >>= f)
  unfolding ◌>>=◌
  Yields-skip m f h = record { at = λ s b. Yields-continue (m s).0 f (m s).1 b (λ a _. h a) }

  pub Yields-lift :
      (r : Result A) (f : A → Exec B)
      → ((a : A) → r ≡ ok a → Yields Post (f a))
      → Yields Post (lift r >>= f)
  unfolding ◌>>=◌
  Yields-lift r f h = record { at = λ s b. Yields-continue r f s b h }

  pub Yields-bind :
      (Pre : A → Type 0) (m : Exec A) (f : A → Exec B)
      → Yields Pre m
      → ((a : A) → Pre a → Yields Post (f a))
      → Yields Post (m >>= f)
  unfolding ◌>>=◌
  Yields-bind Pre m f g h = record {
    at = λ s b. Yields-continue (m s).0 f (m s).1 b (λ a e. h a (g.at s a e));
  }

-- a part whose value is known by what it yields
pub Moves-Yields :
    {A B : Type 0} (db : Db) (P : Db → Type 0) (Pre : A → Type 0) (m : Exec A) (f : A → Exec B)
    → P db
    → Leaves m
    → Yields Pre m
    → ((a : A) → Pre a → Moves db P (f a))
    → Moves db P (m >>= f)
unfolding ◌>>=◌
Moves-Yields db P Pre m f p l y h = record {
  at = λ s e. Moves-continue db P (m s).0 f (m s).1 (l.at s ∙ e) p (λ a r. h a (y.at s a r));
}

-- the value of a function, sent on
pub Moves-then-pure :
    {A B : Type 0} (db : Db) (P : Db → Type 0) (m : Exec A) (f : A → B)
    → Moves db P m
    → Moves db P (m >>= λ a. pure (f a))
unfolding ◌>>=◌
Moves-then-pure {A} db P m f k = record { at = λ s e. go (m s).0 (m s).1 (k.at s e) }
  where
    go : (r : Result A) (s' : Engine) → P s'.db → P (continue r (λ a. pure (f a)) s').1.db
    go (ok a) s' p = p
    go (err x) s' p = p
