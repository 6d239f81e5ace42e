-- ===== src/Tests/RulesTests.antt =====
-- The theorems on rules, at concrete rules and frames.
use alerts.Common.{
  ℕ, ap, ◌≤◌, ◌≡◌, refl, ◌↔◌, Bool, true, false, none, some, [], ◌∷◌, ◌++◌, str_beq, leb, ◌-◌,
  length, drop, if◌then◌else◌, ◌<>◌, arith,
}
use alerts.Common.Int.{pos}
use alerts.Common.Text.{itoa}
use alerts.Rules.Validate.{validate, validate_at, count_rules}
use alerts.Rules.Validate.Shape.{nesting, IsShaped, validate_iff}
use alerts.Rules.Results.{plain, hit}
use alerts.Rules.Facts.{candle_color_of}
use alerts.Rules.Temporal.{streak_case}
use alerts.Rules.Temporal.Streak.{trailing, streak_case_lem}
use alerts.Rules.Kinds.{dependencies, rule_type, dependencies_of, no_dependency}
use alerts.Rules.Evaluate.{evaluate}
use alerts.Rules.Evaluate.Panics.{IsDefined, evaluate_safe}
use alerts.Rules.Evaluate.Verdict.{verdict, option_map, meaning, verdict-evaluate}
use alerts.Rules.Evaluate.Dependencies.{Agrees, evaluate_agree}
use alerts.Rules.Advance.History.{
  advance_all, confirmed_candles, color_all, candles-advance_all, colors-advance_all,
}
use alerts.Model.{Observation, empty_features}
use alerts.Tests.{
  whole_numbers, sample_platform, streak_fields, red_both, red_candle, first, second_frame,
  after_red,
}

validate_iff_example : (validate red_both ≡ none) ↔ ((nesting red_both ≤ 8) × IsShaped red_both)
validate_iff_example = validate_iff red_both

red_both_valid : validate red_both ≡ none
unfolding validate str_beq validate_at rule_type count_rules
red_both_valid = refl

evaluate_safe_example : IsDefined (evaluate red_both first after_red)
evaluate_safe_example = evaluate_safe first after_red red_both red_both_valid

verdict-evaluate_example :
    option_map verdict (evaluate red_both first after_red) ≡ meaning red_both first after_red
verdict-evaluate_example = verdict-evaluate first after_red red_both

streak_case_lem_example :
    streak_case streak_fields first after_red
    ≡ some (
        if leb 2 (trailing "red" (("red" ∷ []) ++ candle_color_of first.candle ∷ []))
        then hit (itoa (pos 2) <> " consecutive " <> "red" <> " candles") []
        else plain false true)
streak_case_lem_example = streak_case_lem streak_fields 2 first after_red refl

-- The second frame as the rule on its colour reads it, with other indicators, zones and patterns.
abbrev other_frame : Observation ℕ
other_frame = record second_frame { patterns = record { kind = "doji"; side = "" } ∷ [] }

red_candle_reads : dependencies red_candle ≡ record no_dependency { candle = true }
unfolding dependencies rule_type str_beq dependencies_of
red_candle_reads = refl

clash : {b : Bool} → b ≡ false → b ≡ true → ⊥
clash h k = cc

red_candle-Agrees :
    Agrees (dependencies red_candle) second_frame other_frame after_red empty_features
red_candle-Agrees = record {
  same_candle = λ h. refl;
  same_status = λ h. refl;
  same_time = λ h. refl;
  same_series = λ h. refl;
  same_forming_bar = λ h. refl;
  same_forming_color = λ h. refl;
  same_indicators = λ h. refl;
  same_values = λ h. refl;
  same_transitions = λ h. refl;
  same_zones = λ h. refl;
  same_patterns = λ h. absurd (clash (ap (λ d. d.pattern) red_candle_reads) h);
  same_close = λ h. refl;
  same_colors = λ h. absurd (clash (ap (λ d. d.history) red_candle_reads) h);
}

evaluate_agree_example :
    evaluate red_candle second_frame after_red ≡ evaluate red_candle other_frame empty_features
evaluate_agree_example =
    evaluate_agree second_frame other_frame after_red empty_features red_candle red_candle-Agrees

candles-advance_all_example : (advance_all after_red (first ∷ second_frame ∷ [])).candles ≡ (
    let all = after_red.candles ++ confirmed_candles (first ∷ second_frame ∷ []) in
    drop (length all - 500) all)
candles-advance_all_example =
    candles-advance_all after_red (first ∷ second_frame ∷ []) (omega arith)

colors-advance_all_example : (advance_all after_red (first ∷ second_frame ∷ [])).candle_colors ≡ (
    let all =
      after_red.candle_colors ++ color_all (confirmed_candles (first ∷ second_frame ∷ [])) in
    drop (length all - 100) all)
colors-advance_all_example = colors-advance_all after_red (first ∷ second_frame ∷ []) (omega arith)
