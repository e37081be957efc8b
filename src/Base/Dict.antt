-- ===== src/Base/Dict.antt =====
-- Python's `dict` with text keys, in insertion order.
use klados.Base.Tests.{◌≟◌, if◌then◌else◌, is_some, ≟_iff, ≟_self}
use klados.Base.Lists.{length}
use Prim.Native.Nat.{◌+◌, ◌≤◌}
use Prim.Native.String.{String}
use mathlib.Core.Path.{◌≡◌, refl, ap}
use mathlib.Core.Logic.{◌⊎◌}
use mathlib.Core.Bool.{Bool, true}
use mathlib.Core.Option.{Option, none, some}
use mathlib.Core.List.{List, [], ◌∷◌}
use native.Mathlib.Omega.{arith}

abbrev pub Dict {ℓ} : Type ℓ → Type ℓ
Dict V = List (String × V)

module _ {ℓ} {V : Type ℓ} where
  -- `d.get(k)`
  unfoldable pub lookup : String → Dict V → Option V
  lookup k [] = none
  lookup k ((j, v) ∷ d) = if j ≟ k then some v else lookup k d

  -- `d[k] = v`: a key that is there keeps its place
  unfoldable pub insert : String → V → Dict V → Dict V
  insert k v [] = (k, v) ∷ []
  insert k v ((j, w) ∷ d) = if j ≟ k then (j, v) ∷ d else (j, w) ∷ insert k v d

  -- `del d[k]` and `d.pop(k, None)`, for every entry of that key
  unfoldable pub erase : String → Dict V → Dict V
  erase k [] = []
  erase k ((j, w) ∷ d) = let rest = erase k d in if j ≟ k then rest else (j, w) ∷ rest

  -- `k in d`
  abbrev pub contains : String → Dict V → Bool
  contains k d = is_some (lookup k d)

  pub lookup-insert :
      (k j : String) (v : V) (d : Dict V)
      → lookup j (insert k v d) ≡ (if k ≟ j then some v else lookup j d)
  unfolding lookup insert
  lookup-insert k j v [] = refl
  lookup-insert k j v ((i, w) ∷ d) =
      ground (arith, ≟_iff k j, ≟_iff i k, ≟_iff i j, lookup-insert k j v d)

  pub lookup-insert_self : (k : String) (v : V) (d : Dict V) → lookup k (insert k v d) ≡ some v
  lookup-insert_self k v d = rw (lookup-insert k k v d, ≟_self k)

  pub lookup-erase :
      (k j : String) (d : Dict V) → lookup j (erase k d) ≡ (if k ≟ j then none else lookup j d)
  unfolding lookup erase
  lookup-erase k j [] = ground arith
  lookup-erase k j ((i, w) ∷ d) =
      ground (arith, ≟_iff k j, ≟_iff i k, ≟_iff i j, lookup-erase k j d)

  pub length-insert : (k : String) (v : V) (d : Dict V) → length (insert k v d) ≤ length d + 1
  unfolding insert
  length-insert k v [] = omega arith
  length-insert k v ((j, w) ∷ d) = ground (arith, length-insert k v d)

  pub contains-insert_self : (j : String) (v : V) (d : Dict V) → contains j (insert j v d) ≡ true
  contains-insert_self j v d = ap (λ (o : Option V). is_some o) (lookup-insert_self j v d)

  pub contains-insert :
      (i j : String) (v : V) (d : Dict V) → contains j d ≡ true → contains j (insert i v d) ≡ true
  contains-insert i j v d h = ground (arith, lookup-insert i j v d)

  pub contains-insert_inv :
      (i j : String) (v : V) (d : Dict V)
      → contains j (insert i v d) ≡ true
      → (i ≡ j) ⊎ (contains j d ≡ true)
  contains-insert_inv i j v d h = ground (arith, lookup-insert i j v d, ≟_iff i j)
