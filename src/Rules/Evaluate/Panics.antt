-- ===== src/Rules/Evaluate/Panics.antt =====
-- A rule that Validate accepts never makes evaluate panic.
use alerts.Common.{
  ℕ, ◌+◌, ◌≡◌, refl, String, Bool, true, false, Option, none, some, List, arith, is_some, ◌∷◌,
  if◌then◌else◌, ◌>>=◌,
}
use alerts.Common.Int.{ℤ, pos, negsuc, ltb_ℤ}
use alerts.Model.{
  Float64, Platform, Observation, RuleFields, Rule, node, Rules, no_rules, rules, RulePointer, nil,
  pointer, FeatureState,
}
use alerts.Rules.Kinds.{RuleType, negation, candle_streak, rule_type, is_set}
use alerts.Rules.Validate.{
  RuleError, nesting_exceeded, count_rules, validate_case, validate_at, validate_rules,
  validate_pointer, validate, or_else,
}
use alerts.Rules.Results.{RuleResult}
use alerts.Rules.Temporal.{streak_of}
use alerts.Rules.Evaluate.{evaluate_case, evaluate, evaluate_rules, evaluate_pointer}

or_else-none : (a b : Option RuleError) → or_else a b ≡ none → (a ≡ none) × (b ≡ none)
or_else-none a b h = ground arith

-- What is left of a validation that passed the test of the nesting.
unnested :
    (b : Bool) (e : Option RuleError) → (if b then some nesting_exceeded else e) ≡ none → e ≡ none
unnested true e h = cc
unnested false e h = h

both_defined {ℓ} :
    {A : Type ℓ} (a : Option A) (others : Option (List A))
    → is_some a ≡ true
    → is_some others ≡ true
    → is_some (a >>= λ x. others >>= λ xs. some (x ∷ xs)) ≡ true
both_defined a others h k = ground arith

abbrev pub IsDefined {ℓ} : {A : Type ℓ} → Option A → Type 0
IsDefined o = is_some o ≡ true

module _ {F : Type 0} ⦃fl : Float64 F⦄ (o : Observation F) (s : FeatureState F) where
  streak_of-IsDefined :
      (d : String) (c : ℤ) (colors : List String)
      → ltb_ℤ c (pos 2) ≡ false
      → IsDefined (streak_of {F = F} d c colors)
  unfolding streak_of
  streak_of-IsDefined d (pos n) colors h = refl
  streak_of-IsDefined d (negsuc n) colors h = ground arith

  module _ ⦃pl : Platform F⦄ where
    -- One case, when the children that it evaluates do not panic.
    evaluate_case-IsDefined :
        (t : RuleType) (f : RuleFields F) (n : ℕ) (among through : Option RuleError)
        (child : RulePointer F) (results : Option (List (RuleResult F)))
        (result : Option (RuleResult F))
        → validate_case t f n among child through ≡ none
        → (among ≡ none → IsDefined results)
        → (is_set child ≡ true → through ≡ none → IsDefined result)
        → IsDefined (evaluate_case t f o s results result)
    unfolding validate_case evaluate_case
    evaluate_case-IsDefined RuleType.all f n among through child results result h a b =
        ground (arith, a (ground arith))
    evaluate_case-IsDefined RuleType.any f n among through child results result h a b =
        ground (arith, a (ground arith))
    evaluate_case-IsDefined negation f n among through nil results result h a b = cc
    evaluate_case-IsDefined negation f n among through (pointer r) results result h a b =
        ground (arith, b refl h)
    evaluate_case-IsDefined candle_streak f n among through child results result h a b =
        streak_of-IsDefined f.direction f.count _ (ground arith)
    evaluate_case-IsDefined _ f n among through child results result h a b = refl

    mutual
      unfolding validate_at evaluate

      evaluate-IsDefined_at :
          (r : Rule F) (d : ℕ) → validate_at r d ≡ none → IsDefined (evaluate r o s)
      evaluate-IsDefined_at (node f children child) d h =
          evaluate_case-IsDefined (rule_type f.type) f (count_rules children)
            (validate_rules children (d + 1)) (validate_pointer child (d + 1)) child
            (evaluate_rules children o s) (evaluate_pointer child o s) (unnested _ _ h)
            (evaluate_rules-IsDefined children (d + 1)) (evaluate_pointer-IsDefined child (d + 1))

      evaluate_rules-IsDefined :
          (rs : Rules F) (d : ℕ) → validate_rules rs d ≡ none → IsDefined (evaluate_rules rs o s)
      evaluate_rules-IsDefined no_rules d h = refl
      evaluate_rules-IsDefined (rules r rs) d h =
          both_defined (evaluate r o s) (evaluate_rules rs o s)
            (evaluate-IsDefined_at r d (or_else-none _ _ h).0)
            (evaluate_rules-IsDefined rs d (or_else-none _ _ h).1)

      evaluate_pointer-IsDefined :
          (p : RulePointer F) (d : ℕ)
          → is_set p ≡ true
          → validate_pointer p d ≡ none
          → IsDefined (evaluate_pointer p o s)
      evaluate_pointer-IsDefined nil d b h = cc
      evaluate_pointer-IsDefined (pointer r) d b h = evaluate-IsDefined_at r d h

    -- Evaluating a rule that Validate accepts does not panic, on any observation and feature state.
    pub evaluate_safe : (r : Rule F) → validate r ≡ none → IsDefined (evaluate r o s)
    unfolding validate
    evaluate_safe r h = evaluate-IsDefined_at r 0 h
