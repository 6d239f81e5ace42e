-- ===== src/Rules/Validate/Shape.antt =====
-- Validate accepts exactly the rules of an independent description: a nesting of at most eight levels,
-- two to twenty children of `all` and `any`, and parameters in range.
use alerts.Common.{
  ◌<◌, ℕ, suc, ◌+◌, ◌≤◌, ◌≡◌, refl, ◌↔◌, String, Bool, true, false, not, ◌||◌, Option, none, some,
  List, [], ◌∷◌, any, arith, ltb, ◌==◌, string_eq, if◌then◌else◌,
}
use Prim.Native.Nat.{max}
use alerts.Common.Int.{pos_part, neg_part}
use alerts.Common.Text.{is_blank}
use alerts.Model.{
  Float64, RuleFields, Rule, node, Rules, no_rules, rules, RulePointer, nil, pointer,
}
use alerts.Rules.Kinds.{
  RuleType, negation, price_hits_zone, zone_transition, price_near_zone, price_crosses_indicator,
  candle_color, candle_streak, candle_color_flip, pattern, unsupported, rule_type, is_set,
}
use alerts.Rules.Validate.{
  RuleError, child_count, check, nesting_exceeded, count_rules, validate_case, validate_at,
  validate_rules, validate_pointer, validate, max_depth, or_else,
}
use native.Mathlib.Decide.{dec_le}

-- s is one of the listed words.
abbrev OneOf : String → List String → Type 0
OneOf s words = any (λ w. s == w) words ≡ true

abbrev zone_kinds : List String
zone_kinds = "fvg" ∷ "order_block" ∷ []

abbrev transitions : List String
transitions = "created" ∷ "touched" ∷ "mitigated" ∷ "invalidated" ∷ "expired" ∷ []

abbrev colors : List String
colors = "red" ∷ "green" ∷ []

-- The levels of composition below a node.
abbrev nesting_case : RuleType → ℕ → ℕ → ℕ
nesting_case RuleType.all among through = among
nesting_case RuleType.any among through = among
nesting_case negation among through = through
nesting_case _ among through = 0

unfoldable mutual
  pub nesting : {F : Type 0} → Rule F → ℕ
  nesting (node f children child) =
      nesting_case (rule_type f.type) (nesting_rules children) (nesting_pointer child)

  nesting_rules : {F : Type 0} → Rules F → ℕ
  nesting_rules no_rules = 0
  nesting_rules (rules r rs) = max (suc (nesting r)) (nesting_rules rs)

  nesting_pointer : {F : Type 0} → RulePointer F → ℕ
  nesting_pointer nil = 0
  nesting_pointer (pointer r) = suc (nesting r)

-- Past the limit nothing is accepted.
too_deep_iff :
    (e : Option RuleError) (d n : ℕ) (P : Type 0)
    → 8 < d
    → ((if ltb max_depth d then some nesting_exceeded else e) ≡ none) ↔ ((d + n ≤ 8) × P)
too_deep_iff e d n P h = (λ k. absurd (ground arith), λ k. absurd (omega arith))

not_too_deep_iff :
    (e : Option RuleError) (d : ℕ) {P : Type 0}
    → d ≤ 8
    → (e ≡ none) ↔ P
    → ((if ltb max_depth d then some nesting_exceeded else e) ≡ none) ↔ P
not_too_deep_iff e d h on = (λ k. on.0 (ground arith), λ p. shallow (on.1 p))
  where
    shallow : e ≡ none → (if ltb max_depth d then some nesting_exceeded else e) ≡ none
    shallow q = ground arith

or_else_iff :
    (a b : Option RuleError) (d m n : ℕ) {P Q : Type 0}
    → (a ≡ none) ↔ ((d + 1 + m ≤ 8) × P)
    → (b ≡ none) ↔ ((d + n ≤ 8) × Q)
    → (or_else a b ≡ none) ↔ ((d + max (suc m) n ≤ 8) × (P × Q))
or_else_iff a b d m n on_a on_b = (
  λ h.
      let (p, x) = on_a.0 (ground arith) in
      let (q, y) = on_b.0 (ground arith) in (omega arith, (x, y)),
  λ h. both (on_a.1 (omega arith, h.1.0)) (on_b.1 (omega arith, h.1.1)),
)
  where
    both : a ≡ none → b ≡ none → or_else a b ≡ none
    both p q = ground arith

module _ {F : Type 0} ⦃fl : Float64 F⦄ where
  -- 0 < x ≤ top, as the comparisons of float64 say it
  abbrev InRange : F → ℕ → Type 0
  InRange x top = (fl.le x (fl.float 0) ≡ false) × (fl.lt (fl.float top) x ≡ false)

  abbrev ShapeCase : RuleType → RuleFields F → ℕ → Type 0 → Bool → Type 0 → Type 0
  ShapeCase RuleType.all f n Among set Through = (2 ≤ n) × (n ≤ 20) × Among
  ShapeCase RuleType.any f n Among set Through = (2 ≤ n) × (n ≤ 20) × Among
  ShapeCase negation f n Among set Through = (set ≡ true) × Through
  ShapeCase price_hits_zone f n Among set Through =
      OneOf f.kind zone_kinds × OneOf f.transition ("" ∷ transitions)
  ShapeCase zone_transition f n Among set Through =
      OneOf f.kind zone_kinds
      × ((f.transition == "") ≡ false)
      × OneOf f.transition ("" ∷ transitions)
  ShapeCase price_near_zone f n Among set Through =
      OneOf f.kind zone_kinds × InRange f.distance_bps 10000
  ShapeCase price_crosses_indicator f n Among set Through =
      ((f.name == "") ≡ false)
      × (1 + neg_part f.period ≤ pos_part f.period)
      × OneOf f.direction ("above" ∷ "below" ∷ "either" ∷ [])
  ShapeCase candle_color f n Among set Through = OneOf f.direction colors
  ShapeCase candle_streak f n Among set Through =
      OneOf f.direction colors
      × (2 + neg_part f.count ≤ pos_part f.count)
      × (pos_part f.count ≤ 100)
  ShapeCase candle_color_flip f n Among set Through =
      OneOf f.direction ("either" ∷ "red_to_green" ∷ "green_to_red" ∷ [])
      × InRange f.min_elapsed_percent 100
  ShapeCase pattern f n Among set Through = is_blank f.kind ≡ false
  ShapeCase unsupported f n Among set Through = ⊥

  mutual
    pub IsShaped : Rule F → Type 0
    IsShaped (node f children child) =
        ShapeCase (rule_type f.type) f (count_rules children) (AreShaped children) (is_set child)
          (IsShapedPointer child)

    AreShaped : Rules F → Type 0
    AreShaped no_rules = Unit
    AreShaped (rules r rs) = IsShaped r × AreShaped rs

    IsShapedPointer : RulePointer F → Type 0
    IsShapedPointer nil = Unit
    IsShapedPointer (pointer r) = IsShaped r

  -- One node, when the question is settled for its children.
  module _ (f : RuleFields F) (n d a b : ℕ) (among through : Option RuleError)
      (child : RulePointer F) (Among Through : Type 0) (below : d ≤ 8)
      (on_among : (among ≡ none) ↔ ((d + a ≤ 8) × Among))
      (on_through : is_set child ≡ true → (through ≡ none) ↔ ((d + b ≤ 8) × Through)) where
    counted_iff :
        (check (not (ltb n 2 || ltb 20 n)) child_count among ≡ none)
        ↔ ((d + a ≤ 8) × ((2 ≤ n) × (n ≤ 20) × Among))
    counted_iff = (
      λ h.
          let (level, rest) = on_among.0 (ground arith) in
          (level, (ground arith, ground arith, rest)),
      λ k. counted (on_among.1 (k.0, k.1.2)) k.1.0 k.1.1,
    )
      where
        counted :
            among ≡ none
            → 2 ≤ n
            → n ≤ 20
            → check (not (ltb n 2 || ltb 20 n)) child_count among ≡ none
        counted e p q = ground arith

    negation_iff :
        (c : RulePointer F)
        → (is_set c ≡ true → (through ≡ none) ↔ ((d + b ≤ 8) × Through))
        → (validate_case negation f n among c through ≡ none)
          ↔ ((d + b ≤ 8) × ((is_set c ≡ true) × Through))
    unfolding validate_case
    negation_iff nil on = (λ h. cc, λ h. cc (h.1.0))
    negation_iff (pointer r) on = (
      λ h. let (level, rest) = (on refl).0 h in (level, (refl, rest)),
      λ k. (on refl).1 (k.0, k.1.1),
    )

    validate_case_iff :
        (t : RuleType)
        → (validate_case t f n among child through ≡ none)
          ↔ ((d + nesting_case t a b ≤ 8) × ShapeCase t f n Among (is_set child) Through)
    unfolding validate_case
    validate_case_iff RuleType.all = counted_iff
    validate_case_iff RuleType.any = counted_iff
    validate_case_iff negation = negation_iff child on_through
    validate_case_iff price_hits_zone = (λ h. ground arith, λ h. ground arith)
    validate_case_iff zone_transition = (λ h. ground arith, λ h. ground arith)
    validate_case_iff price_near_zone = (λ h. ground arith, λ h. ground arith)
    validate_case_iff price_crosses_indicator = (λ h. ground arith, λ h. ground arith)
    validate_case_iff candle_color = (λ h. ground arith, λ h. ground arith)
    validate_case_iff candle_streak = (λ h. ground arith, λ h. ground arith)
    validate_case_iff candle_color_flip = (λ h. ground arith, λ h. ground arith)
    validate_case_iff pattern = (λ h. ground arith, λ h. ground arith)
    validate_case_iff unsupported = (λ h. cc, λ h. elim h.1 [ ])

  mutual
    unfolding validate_at nesting IsShaped

    validate_at_iff :
        (r : Rule F) (d : ℕ) → (validate_at r d ≡ none) ↔ ((d + nesting r ≤ 8) × IsShaped r)
    validate_at_iff (node f children child) d = elim (dec_le d 8) [
      | yes h ↦ not_too_deep_iff _ d h (
          validate_case_iff f (count_rules children) d (nesting_rules children)
            (nesting_pointer child) _ _ child (AreShaped children) (IsShapedPointer child) h
            (validate_rules_iff children d h) (validate_pointer_iff child d) (rule_type f.type))
      | no h ↦ too_deep_iff _ d _ _ (omega arith)
    ]

    validate_rules_iff :
        (rs : Rules F) (d : ℕ)
        → d ≤ 8
        → (validate_rules rs (d + 1) ≡ none) ↔ ((d + nesting_rules rs ≤ 8) × AreShaped rs)
    validate_rules_iff no_rules d h = (λ k. (omega arith, tt), λ k. refl)
    validate_rules_iff (rules r rs) d h =
        or_else_iff _ _ d (nesting r) (nesting_rules rs) (validate_at_iff r (d + 1))
          (validate_rules_iff rs d h)

    validate_pointer_iff :
        (c : RulePointer F) (d : ℕ)
        → is_set c ≡ true
        → (validate_pointer c (d + 1) ≡ none) ↔ ((d + nesting_pointer c ≤ 8) × IsShapedPointer c)
    validate_pointer_iff nil d h = cc
    validate_pointer_iff (pointer r) d h =
        let on = validate_at_iff r (d + 1) in
        (λ k. (omega (arith, (on.0 k).0), (on.0 k).1), λ k. on.1 (omega arith, k.1))

  -- A rule is accepted exactly when it nests `all`, `any` and `not` at most eight levels deep and each
  -- node that is reached has the shape of its type.
  pub validate_iff : (r : Rule F) → (validate r ≡ none) ↔ ((nesting r ≤ 8) × IsShaped r)
  unfolding validate
  validate_iff r =
      let on = validate_at_iff r 0 in
      (λ h. (omega (arith, (on.0 h).0), (on.0 h).1), λ h. on.1 (omega (arith, h.0), h.1))
