-- ===== src/Rules/Validate.antt =====
-- Validate of internal/rules/evaluator.go: which rules a definition may have, and what is said of the others.
pub mod Shape
use alerts.Common.{
  ℕ, suc, ◌+◌, String, Bool, true, false, not, ◌&&◌, ◌||◌, Option, none, some, ltb, ◌==◌, string_eq,
  if◌then◌else◌,
}
use alerts.Common.Int.{pos, ltb_ℤ}
use alerts.Common.Text.{is_blank}
use alerts.Model.{
  Float64, RuleFields, Rule, node, Rules, no_rules, rules, RulePointer, nil, pointer,
}
use alerts.Rules.Kinds.{
  RuleType, negation, price_hits_zone, zone_transition, price_near_zone, price_crosses_indicator,
  candle_color, candle_streak, candle_color_flip, pattern, unsupported, rule_type,
}

-- The messages of validate.
pub data RuleError : Type 0 where
  nesting_exceeded child_count rule_required zone_kind transition_required : RuleError
  unsupported_transition distance_range indicator_required cross_direction : RuleError
  color_direction streak_direction streak_count flip_direction elapsed_range : RuleError
  pattern_kind : RuleError
  unsupported_type : String → RuleError

abbrev pub max_depth : ℕ
max_depth = 8

unfoldable pub count_rules : {F : Type 0} → Rules F → ℕ
count_rules no_rules = 0
count_rules (rules r rs) = suc (count_rules rs)

-- if !test { return err }; what follows
abbrev pub check : Bool → RuleError → Option RuleError → Option RuleError
check true e next = next
check false e next = some e

-- if err != nil { return err }; what follows
abbrev pub or_else : Option RuleError → Option RuleError → Option RuleError
or_else (some e) next = some e
or_else none next = next

abbrev is_zone_kind : String → Bool
is_zone_kind k = k == "fvg" || k == "order_block"

abbrev is_transition : String → Bool
is_transition t =
    t == ""
    || t == "created"
    || t == "touched"
    || t == "mitigated"
    || t == "invalidated"
    || t == "expired"

abbrev is_red_or_green : String → Bool
is_red_or_green d = d == "red" || d == "green"

abbrev is_zone_transition : RuleType → Bool
is_zone_transition zone_transition = true
is_zone_transition _ = false

module _ {F : Type 0} ⦃fl : Float64 F⦄ where
  -- min < x && x <= max
  abbrev in_range : F → ℕ → Bool
  in_range x top = not (fl.le x (fl.float 0)) && not (fl.lt (fl.float top) x)

  -- The cases price_hits_zone and zone_transition.
  zone_rule : Bool → RuleFields F → Option RuleError
  zone_rule is_transition_rule f = check (is_zone_kind f.kind) zone_kind (
      check (not (is_transition_rule && f.transition == "")) transition_required
        (check (is_transition f.transition) unsupported_transition none))

  -- One case of the switch, from the number of children and what validating the children returns.
  unfoldable pub validate_case :
      RuleType
      → RuleFields F
      → ℕ
      → Option RuleError
      → RulePointer F
      → Option RuleError
      → Option RuleError
  unfolding zone_rule
  validate_case RuleType.all f n among child through =
      check (not (ltb n 2 || ltb 20 n)) child_count among
  validate_case RuleType.any f n among child through =
      check (not (ltb n 2 || ltb 20 n)) child_count among
  validate_case negation f n among nil through = some rule_required
  validate_case negation f n among (pointer r) through = through
  validate_case price_hits_zone f n among child through = zone_rule false f
  validate_case zone_transition f n among child through = zone_rule true f
  validate_case price_near_zone f n among child through =
      check (is_zone_kind f.kind) zone_kind
        (check (in_range f.distance_bps 10000) distance_range none)
  validate_case price_crosses_indicator f n among child through =
      check (not (f.name == "" || ltb_ℤ f.period (pos 1))) indicator_required (
        check (f.direction == "above" || f.direction == "below" || f.direction == "either")
          cross_direction none)
  validate_case candle_color f n among child through =
      check (is_red_or_green f.direction) color_direction none
  validate_case candle_streak f n among child through =
      check (is_red_or_green f.direction) streak_direction
        (check (not (ltb_ℤ f.count (pos 2) || ltb_ℤ (pos 100) f.count)) streak_count none)
  validate_case candle_color_flip f n among child through =
      check
        (f.direction == "either" || f.direction == "red_to_green" || f.direction == "green_to_red")
        flip_direction (check (in_range f.min_elapsed_percent 100) elapsed_range none)
  validate_case pattern f n among child through = check (not (is_blank f.kind)) pattern_kind none
  validate_case unsupported f n among child through = some (unsupported_type f.type)

  unfoldable mutual
    unfolding validate_case

    pub validate_at : Rule F → ℕ → Option RuleError
    validate_at (node f children child) depth =
        let among = validate_rules children (depth + 1) in
        let through = validate_pointer child (depth + 1) in
        if ltb max_depth depth
        then some nesting_exceeded
        else validate_case (rule_type f.type) f (count_rules children) among child through

    -- The loop over the children returns the first error.
    pub validate_rules : Rules F → ℕ → Option RuleError
    validate_rules no_rules depth = none
    validate_rules (rules r rs) depth = or_else (validate_at r depth) (validate_rules rs depth)

    pub validate_pointer : RulePointer F → ℕ → Option RuleError
    validate_pointer nil depth = none
    validate_pointer (pointer r) depth = validate_at r depth

  -- Validate; none is a nil error.
  unfoldable pub validate : Rule F → Option RuleError
  validate r = validate_at r 0
