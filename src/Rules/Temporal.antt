-- ===== src/Rules/Temporal.antt =====
-- The cases of evaluate in internal/rules/evaluator.go that read the candle and the feature state.
-- none is a panic: a slice bound out of range.
pub mod Streak
use alerts.Common.{
  String, ◌<>◌, Bool, true, false, not, ◌&&◌, ◌||◌, Option, none, some, List, [], ◌∷◌, ◌++◌, length,
  find, all as all_of, take_last, ltb, ◌==◌, nat_eq, string_eq, if◌then◌else◌,
}
use alerts.Common.Int.{ℤ, pos, negsuc, sub_time}
use alerts.Common.Text.{itoa}
use alerts.Common.Dict.{lookup}
use alerts.Model.{Float64, Platform, Indicator, Observation, RuleFields, FeatureState}
use alerts.Rules.Timeframe.{timeframe_duration}
use alerts.Rules.Results.{RuleResult, plain, hit, indicator_key}
use alerts.Rules.Facts.{candle_color_of}

module _ {F : Type 0} ⦃fl : Float64 F⦄ where
  unfoldable pub color_case : RuleFields F → Observation F → RuleResult F
  color_case f o = record {
    matched = candle_color_of o.candle == f.direction;
    known = true;
    reasons = (candle_color_of o.candle <> " candle closed") ∷ [];
    facts = [];
  }

  -- The colours with that of the current candle, from the slice on; a negative count slices out of range.
  unfoldable pub streak_of : String → ℤ → List String → Option (RuleResult F)
  streak_of direction (negsuc n) colors = none
  streak_of direction (pos n) colors = some (
      if ltb (length colors) n
      then plain false true
      else if all_of (λ got. got == direction) (take_last n colors)
      then hit (itoa (pos n) <> " consecutive " <> direction <> " candles") []
      else plain false true)

  unfoldable pub streak_case : RuleFields F → Observation F → FeatureState F → Option (RuleResult F)
  streak_case f o s =
      streak_of f.direction f.count (s.candle_colors ++ candle_color_of o.candle ∷ [])

  -- elapsed.Seconds() / duration.Seconds() * 100
  unfoldable pub percent_elapsed : Observation F → ℤ → F
  percent_elapsed o duration =
      fl.mul (fl.div (fl.seconds (sub_time o.occurred_at o.candle.open_time)) (fl.seconds duration))
        (fl.float 100)

  unfoldable pub flip_after :
      RuleFields F → Observation F → String → String → Option ℤ → RuleResult F
  flip_after f o from to none = plain false false
  flip_after f o from to (some duration) =
      if fl.lt (percent_elapsed o duration) f.min_elapsed_percent
      then plain false true
      else hit
          ("candle flipped "
            <> from
            <> " to "
            <> to
            <> " at "
            <> fl.fixed 1 (percent_elapsed o duration)
            <> "% elapsed")
          []

  -- A current value of the indicator that the rule names.
  unfoldable pub is_current : String → Indicator F → Bool
  is_current key i = i.ready && indicator_key i.name i.period == key

  unfoldable pub cross_matched : RuleFields F → F → F → F → F → Bool
  cross_matched f last previous close current =
      let above = fl.le last previous && fl.lt current close in
      let below = fl.le previous last && fl.lt close current in
      (f.direction == "above" && above)
      || (f.direction == "below" && below)
      || (f.direction == "either" && (above || below))

  unfoldable pub cross_of :
      RuleFields F → F → Option F → Option F → Option (Indicator F) → RuleResult F
  cross_of f close none previous current = plain false false
  cross_of f close (some last) none current = plain false false
  cross_of f close (some last) (some previous) none = plain false false
  cross_of f close (some last) (some previous) (some i) = record {
    matched = cross_matched f last previous close i.value;
    known = true;
    reasons =
        ("price crossed " <> f.direction <> " " <> f.name <> "(" <> itoa f.period <> ")") ∷ [];
    facts =
        record {
          kind = "indicator";
          id = indicator_key f.name f.period;
          side = "";
          name = f.name;
          value = i.value;
        }
        ∷ [];
  }

  unfoldable pub cross_case : RuleFields F → Observation F → FeatureState F → RuleResult F
  cross_case f o s =
      let key = indicator_key f.name f.period in
      cross_of f o.candle.close s.last_close (lookup key s.indicators)
        (find (is_current key) o.indicators)

  module _ ⦃pl : Platform F⦄ where
    unfoldable pub flip_case : RuleFields F → Observation F → FeatureState F → RuleResult F
    flip_case f o s =
        let from = s.forming_color in
        let to = candle_color_of o.candle in
        if not (o.status == "provisional") || not (s.forming_bar == o.candle.open_time)
        then plain false true
        else if from == "" || from == "doji" || to == "doji" || from == to
        then plain false true
        else if not (f.direction == "either") && not (f.direction == from <> "_to_" <> to)
        then plain false true
        else flip_after f o from to (timeframe_duration pl.parse_duration o.series.timeframe)
