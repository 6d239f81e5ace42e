-- ===== src/Rules/Evaluate.antt =====
-- evaluate of internal/rules/evaluator.go, with Compile and the functions that return its result.
-- none is a panic: a nil child of a `not` rule, or a slice bound out of range.
pub mod Panics
pub mod Dependencies
pub mod Verdict
use alerts.Common.{
  String, Bool, true, false, ◌&&◌, Option, none, some, List, [], ◌∷◌, find, nat_eq, string_eq,
  ◌>>=◌, Result, ok, err,
}
use alerts.Common.Int.{sub_time}
use alerts.Common.Text.{itoa}
use alerts.Common.Dict.{lookup}
use alerts.Model.{
  Float64, Platform, FactReference, Observation, RuleFields, Rule, node, Rules, no_rules, rules,
  RulePointer, nil, pointer, FeatureState,
}
use alerts.Rules.Kinds.{
  RuleType, negation, price_hits_zone, zone_transition, price_near_zone, price_crosses_indicator,
  candle_color, candle_streak, candle_color_flip, pattern, unsupported, rule_type, Dependency,
}
use alerts.Rules.Kinds
use alerts.Rules.Validate.{RuleError, validate}
use alerts.Rules.Timeframe.{timeframe_duration}
use alerts.Rules.Results.{
  RuleResult, plain, all_loop, all_step, any_loop, any_step, negate, indicator_key,
  wanted_transition,
}
use alerts.Rules.Facts.{
  zone_case, transition_matches, transition_hit, transition_fact, middle, near_case, near_hit,
  zone_is_near, distance_bps_of, pattern_case, pattern_hit, candle_color_of,
}
use alerts.Rules.Temporal.{
  cross_case, cross_of, cross_matched, is_current, color_case, streak_case, streak_of, flip_case,
  flip_after, percent_elapsed,
}

pub record Compiled (F : Type 0) : Type 0 where
  pub rule : Rule F
  pub dependencies : Dependency

abbrev pub compile_checked :
    {F : Type 0} → Rule F → Option RuleError → Result RuleError (Compiled F)
compile_checked r (some e) = err e
compile_checked r none = ok (record { rule = r; dependencies = Kinds.dependencies r })

module _ {F : Type 0} ⦃fl : Float64 F⦄ where
  module _ ⦃pl : Platform F⦄ where
    -- One case of the switch, from the results of the children.
    unfoldable pub evaluate_case :
        RuleType
        → RuleFields F
        → Observation F
        → FeatureState F
        → Option (List (RuleResult F))
        → Option (RuleResult F)
        → Option (RuleResult F)
    unfolding all_loop all_step any_loop any_step negate zone_case wanted_transition
        transition_matches transition_hit transition_fact middle near_case near_hit zone_is_near
        distance_bps_of cross_case cross_of cross_matched is_current indicator_key color_case
        candle_color_of streak_case streak_of flip_case flip_after percent_elapsed
        timeframe_duration pattern_case pattern_hit find lookup itoa sub_time
    evaluate_case RuleType.all f o s among through =
        among >>= λ rs. some (all_loop (plain true true) rs)
    evaluate_case RuleType.any f o s among through =
        among >>= λ rs. some (any_loop (plain false false) rs)
    evaluate_case negation f o s among through = through >>= λ r. some (negate r)
    evaluate_case price_hits_zone f o s among through = some (zone_case true f o)
    evaluate_case zone_transition f o s among through = some (zone_case false f o)
    evaluate_case price_near_zone f o s among through = some (near_case f o)
    evaluate_case price_crosses_indicator f o s among through = some (cross_case f o s)
    evaluate_case candle_color f o s among through = some (color_case f o)
    evaluate_case candle_streak f o s among through = streak_case f o s
    evaluate_case candle_color_flip f o s among through = some (flip_case f o s)
    evaluate_case pattern f o s among through = some (pattern_case f o)
    evaluate_case unsupported f o s among through = some (plain false false)

    unfoldable mutual
      unfolding evaluate_case

      pub evaluate : Rule F → Observation F → FeatureState F → Option (RuleResult F)
      evaluate (node f children child) o s =
          evaluate_case (rule_type f.type) f o s (evaluate_rules children o s)
            (evaluate_pointer child o s)

      pub evaluate_rules : Rules F → Observation F → FeatureState F → Option (List (RuleResult F))
      evaluate_rules no_rules o s = some []
      evaluate_rules (rules r rs) o s =
          evaluate r o s >>= λ x. evaluate_rules rs o s >>= λ xs. some (x ∷ xs)

      pub evaluate_pointer : RulePointer F → Observation F → FeatureState F → Option (RuleResult F)
      evaluate_pointer nil o s = none
      evaluate_pointer (pointer r) o s = evaluate r o s

    -- evaluate, with the truth that callers use: known && matched.
    unfoldable pub evaluate_detailed :
        Compiled F
        → Observation F
        → FeatureState F
        → Option (Bool × List String × List (FactReference F))
    unfolding evaluate
    evaluate_detailed compiled o s =
        evaluate compiled.rule o s >>= λ r. some (r.known && r.matched, r.reasons, r.facts)

  unfoldable pub compile : Rule F → Result RuleError (Compiled F)
  unfolding validate
  compile r = compile_checked r (validate r)
