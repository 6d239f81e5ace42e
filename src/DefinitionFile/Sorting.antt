-- ===== src/DefinitionFile/Sorting.antt =====
-- The order of an exported manifest.
use mathlib.Core.List.{Perm}
use mathlib.Core.List.Perm
use Prim.Native.Char.{code}
use Prim.Native.Nat.{Ordering, compare as compare_ℕ}
use Prim.Native.Nat.compare
use Prim.Native.String.compare as text_compare
use Prim.Native.String.{compare as compare_text, then as or_else}
use text.Mathlib.Text.{is_lt}
use alerts.Common.{
  ℕ, zero, suc, String, true, false, List, [], ◌∷◌, map, ◌≡◌, refl, ap, ◌∙◌, All, Bool-cases, inl,
  inr,
}
use alerts.Common.Text.{str_ltb}
use alerts.Model.{Rule, AlertDefinition}
use alerts.DefinitionFile.{
  Definition, portable, definition_sort_key, insert_definition, sort_definitions, new_manifest,
}

flip : Ordering → Ordering
flip Ordering.lt = Ordering.gt
flip Ordering.eq = Ordering.eq
flip Ordering.gt = Ordering.lt

compare_nat_flip : (m n : ℕ) → compare_ℕ n m ≡ flip (compare_ℕ m n)
unfolding flip
compare_nat_flip zero zero = rw compare.zero-zero refl
compare_nat_flip zero (suc n) = rw (compare.zero-suc n, compare.suc-zero n) refl
compare_nat_flip (suc m) zero = rw (compare.zero-suc m, compare.suc-zero m) refl
compare_nat_flip (suc m) (suc n) =
    rw (compare.suc-suc m n, compare.suc-suc n m) (compare_nat_flip m n)

compare_flip : (s t : String) → compare_text t s ≡ flip (compare_text s t)
unfolding flip
compare_flip String.[] String.[] = rw text_compare.nil-nil refl
compare_flip String.[] (String.◌∷◌ d t) =
    rw (text_compare.nil-cons d t, text_compare.cons-nil d t) refl
compare_flip (String.◌∷◌ c s) String.[] =
    rw (text_compare.nil-cons c s, text_compare.cons-nil c s) refl
compare_flip (String.◌∷◌ c s) (String.◌∷◌ d t) =
    rw (text_compare.cons-cons c d s t, text_compare.cons-cons d c t s)
      (ap (λ o. or_else o (compare_text t s)) (compare_nat_flip (code c) (code d))
        ∙ first_differs (compare_ℕ (code c) (code d)) _ _ (compare_flip s t))
  where
    first_differs : (o x y : Ordering) → y ≡ flip x → or_else (flip o) y ≡ flip (or_else o x)
    first_differs Ordering.lt x y h = refl
    first_differs Ordering.eq x y h = h
    first_differs Ordering.gt x y h = refl

str_ltb_asym : (s t : String) → str_ltb s t ≡ true → str_ltb t s ≡ false
unfolding str_ltb flip
str_ltb_asym s t h = ap is_lt (compare_flip s t) ∙ turned (compare_text s t) h
  where
    turned : (o : Ordering) → is_lt o ≡ true → is_lt (flip o) ≡ false
    turned Ordering.lt h = refl
    turned Ordering.eq h = refl
    turned Ordering.gt h = cc

module _ {F : Type 0} (rule_json : Rule F → String) where
  abbrev key : Definition F → String
  key d = definition_sort_key rule_json d

  -- The first of the definitions has no smaller key.
  abbrev pub IsNext : Definition F → List (Definition F) → Type 0
  IsNext d [] = Unit
  IsNext d (c ∷ cs) = str_ltb (key c) (key d) ≡ false

  abbrev pub IsSorted : List (Definition F) → Type 0
  IsSorted [] = Unit
  IsSorted (d ∷ ds) = IsNext d ds × IsSorted ds

  insert_definition-Perm :
      (d : Definition F) (cs : List (Definition F))
      → Perm (d ∷ cs) (insert_definition rule_json d cs)
  unfolding insert_definition
  insert_definition-Perm d [] = Perm.refl (d ∷ [])
  insert_definition-Perm d (c ∷ cs) = elim (Bool-cases (str_ltb (key c) (key d))) [
    | inl y ↦ rw y (Perm.trans (Perm.swap c d cs) (Perm.cons c (insert_definition-Perm d cs)))
    | inr n ↦ rw n (Perm.refl (d ∷ c ∷ cs))
  ]

  sort_definitions-Perm : (ds : List (Definition F)) → Perm ds (sort_definitions rule_json ds)
  unfolding sort_definitions
  sort_definitions-Perm [] = Perm.refl []
  sort_definitions-Perm (d ∷ ds) =
      Perm.trans (Perm.cons d (sort_definitions-Perm ds))
        (insert_definition-Perm d (sort_definitions rule_json ds))

  insert_definition-IsNext :
      (c d : Definition F) (cs : List (Definition F))
      → str_ltb (key d) (key c) ≡ false
      → IsNext c cs
      → IsNext c (insert_definition rule_json d cs)
  unfolding insert_definition
  insert_definition-IsNext c d [] h n = h
  insert_definition-IsNext c d (e ∷ cs) h n = elim (Bool-cases (str_ltb (key e) (key d))) [
    | inl y ↦ rw y n
    | inr z ↦ rw z h
  ]

  insert_definition-IsSorted :
      (d : Definition F) (cs : List (Definition F))
      → IsSorted cs
      → IsSorted (insert_definition rule_json d cs)
  unfolding insert_definition
  insert_definition-IsSorted d [] h = (tt, tt)
  insert_definition-IsSorted d (c ∷ cs) (n, h) = elim (Bool-cases (str_ltb (key c) (key d))) [
    | inl y ↦ rw y (
      insert_definition-IsNext c d cs (str_ltb_asym (key c) (key d) y) n,
      insert_definition-IsSorted d cs h,
    )
    | inr z ↦ rw z (z, (n, h))
  ]

  sort_definitions-IsSorted : (ds : List (Definition F)) → IsSorted (sort_definitions rule_json ds)
  unfolding sort_definitions
  sort_definitions-IsSorted [] = tt
  sort_definitions-IsSorted (d ∷ ds) =
      insert_definition-IsSorted d (sort_definitions rule_json ds) (sort_definitions-IsSorted ds)

  -- A new manifest holds the portable parts of the given definitions, each as often as it was given, in the order
  -- of their sort keys.
  pub new_manifest-IsSorted :
      (ds : List (AlertDefinition F))
      → IsSorted (new_manifest rule_json ds).definitions
        × Perm (map portable ds) (new_manifest rule_json ds).definitions
  unfolding new_manifest
  new_manifest-IsSorted ds =
      (sort_definitions-IsSorted (map portable ds), sort_definitions-Perm (map portable ds))

  insert_definition-All :
      (P : Definition F → Type 0) (d : Definition F) (cs : List (Definition F))
      → P d
      → All P cs
      → All P (insert_definition rule_json d cs)
  unfolding insert_definition
  insert_definition-All P d [] p h = (p, tt)
  insert_definition-All P d (c ∷ cs) p (q, h) = elim (Bool-cases (str_ltb (key c) (key d))) [
    | inl y ↦ rw y (q, insert_definition-All P d cs p h)
    | inr z ↦ rw z (p, (q, h))
  ]

  pub sort_definitions-All :
      (P : Definition F → Type 0) (ds : List (Definition F))
      → All P ds
      → All P (sort_definitions rule_json ds)
  unfolding sort_definitions
  sort_definitions-All P [] h = tt
  sort_definitions-All P (d ∷ ds) (p, h) =
      insert_definition-All P d (sort_definitions rule_json ds) p (sort_definitions-All P ds h)
