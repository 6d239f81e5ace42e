-- ===== src/Common/Dict.antt =====
-- Go maps as association lists. Iteration follows the list; the program fixes no order of its own.
use mathlib.Core.Path.{◌≡◌, refl, ◌∙◌}
use mathlib.Core.Logic.{inl, inr}
use mathlib.Core.Bool.{Bool}
use mathlib.Core.Option.{Option, none, some}
use mathlib.Core.List.{List, [], ◌∷◌}
use native.Mathlib.Omega.{arith}
use alerts.Common.Tests.{Bool-cases, Eq, ◌==◌, if◌then◌else◌}

abbrev pub Dict {ℓ κ} : Type ℓ → Type κ → Type (ℓ ⊔ κ)
Dict K V = List (K × V)

-- The keys in the order of iteration.
unfoldable pub keys {ℓ κ} : {K : Type ℓ} {V : Type κ} → Dict K V → List K
keys [] = []
keys ((k, v) ∷ d) = k ∷ keys d

unfoldable pub values {ℓ κ} : {K : Type ℓ} {V : Type κ} → Dict K V → List V
values [] = []
values ((k, v) ∷ d) = v ∷ values d

module _ {ℓ κ} {K : Type ℓ} {V : Type κ} where
  -- for key := range d { if p(key) { delete(d, key) } }
  unfoldable pub delete_if : (K → Bool) → Dict K V → Dict K V
  delete_if p [] = []
  delete_if p ((k, v) ∷ d) = let rest = delete_if p d in if p k then rest else (k, v) ∷ rest

-- The first value, or else the second.
abbrev pub first_of {ℓ} : {A : Type ℓ} → Option A → Option A → Option A
first_of none o = o
first_of (some a) o = some a

module _ {ℓ κ} {K : Type ℓ} {V : Type κ} ⦃e : Eq K⦄ where
  unfoldable pub lookup : K → Dict K V → Option V
  lookup k [] = none
  lookup k ((j, v) ∷ d) = if j == k then some v else lookup k d

  -- d[k] = v
  unfoldable pub insert : K → V → Dict K V → Dict K V
  insert k v [] = (k, v) ∷ []
  insert k v ((j, w) ∷ d) = if j == k then (j, v) ∷ d else (j, w) ∷ insert k v d

  -- for key, value := range d { m[key] = value }
  unfoldable pub insert_all : Dict K V → Dict K V → Dict K V
  insert_all [] m = m
  insert_all ((k, v) ∷ d) m = insert_all d (insert k v m)

  pub lookup-insert :
      (k j : K) (v : V) (d : Dict K V)
      → lookup j (insert k v d) ≡ (if k == j then some v else lookup j d)
  unfolding lookup insert
  lookup-insert k j v [] = refl
  lookup-insert k j v ((i, w) ∷ d) =
      ground (arith, e.same_iff k j, e.same_iff i k, e.same_iff i j, lookup-insert k j v d)

  pub lookup-delete_if :
      (p : K → Bool) (j : K) (d : Dict K V)
      → lookup j (delete_if p d) ≡ (if p j then none else lookup j d)
  unfolding lookup delete_if
  lookup-delete_if p j [] = ground arith
  lookup-delete_if p j ((i, w) ∷ d) = ground (arith, e.same_iff i j, lookup-delete_if p j d)

  pub lookup-insert_self : (k : K) (v : V) (d : Dict K V) → lookup k (insert k v d) ≡ some v
  lookup-insert_self k v d = ground (arith, lookup-insert k k v d, e.same_iff k k)

  -- No key stands twice.
  abbrev pub IsUnique : Dict K V → Type (ℓ ⊔ κ)
  IsUnique [] = Unit
  IsUnique ((k, v) ∷ d) = (lookup k d ≡ none) × IsUnique d

  pub insert-IsUnique : (k : K) (v : V) (d : Dict K V) → IsUnique d → IsUnique (insert k v d)
  unfolding lookup insert
  insert-IsUnique k v [] h = (refl, tt)
  insert-IsUnique k v ((j, w) ∷ d) (a, h) = elim (Bool-cases (j == k)) [
    | inl y ↦ rw y (a, h)
    | inr n ↦ rw n (
      ground (arith, lookup-insert k j v d, e.same_iff k j, e.same_iff j k),
      insert-IsUnique k v d h,
    )
  ]

  -- Entries of the first map go before those of the second.
  pub lookup-insert_all :
      (k : K) (d m : Dict K V)
      → IsUnique d
      → lookup k (insert_all d m) ≡ first_of (lookup k d) (lookup k m)
  unfolding lookup insert_all
  lookup-insert_all k [] m h = refl
  lookup-insert_all k ((j, v) ∷ d) m (a, h) =
      lookup-insert_all k d (insert j v m) h ∙ ground (arith, lookup-insert j k v m, e.same_iff j k)
