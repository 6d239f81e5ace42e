-- ===== src/Rules/Advance.antt =====
-- Advance of internal/rules/evaluator.go: the feature state after an observation.
-- The Go code writes into the map of the state that it is given; every caller owns that map.
pub mod History
use alerts.Common.{
  ℕ, String, some, List, [], ◌∷◌, ◌++◌, length, take_last, ltb, ◌==◌, nat_eq, string_eq,
  if◌then◌else◌,
}
use alerts.Common.Dict.{Dict, insert}
use alerts.Model.{Float64, Indicator, Observation, FeatureState}
use alerts.Rules.Results.{indicator_key}
use alerts.Rules.Facts.{candle_color_of}

abbrev pub max_candles : ℕ
max_candles = 500

abbrev pub max_colors : ℕ
max_colors = 100

-- if len(xs) > n { xs = xs[len(xs)-n:] }
unfoldable pub keep_last {ℓ} : {A : Type ℓ} → ℕ → List A → List A
keep_last n xs = if ltb n (length xs) then take_last n xs else xs

-- The loop over the indicators: those that are ready are stored under their keys.
unfoldable pub store_indicators : {F : Type 0} → List (Indicator F) → Dict String F → Dict String F
store_indicators [] d = d
store_indicators (i ∷ is) d =
    store_indicators is (if i.ready then insert (indicator_key i.name i.period) i.value d else d)

module _ {F : Type 0} ⦃fl : Float64 F⦄ where
  -- A closed candle is appended to the history, and no candle is forming.
  close_candle : FeatureState F → Observation F → FeatureState F
  close_candle s o = record s {
    candles = keep_last max_candles (s.candles ++ o.candle ∷ []);
    candle_colors = keep_last max_colors (s.candle_colors ++ candle_color_of o.candle ∷ []);
    forming_bar = 0;
    forming_color = "";
  }

  -- A forming candle leaves its last colour, which a doji does not replace.
  form_candle : FeatureState F → Observation F → FeatureState F
  form_candle s o =
      let old = if s.forming_bar == o.candle.open_time then s.forming_color else "" in
      let color = candle_color_of o.candle in
      record s {
        forming_bar = o.candle.open_time;
        forming_color = if color == "doji" then old else color;
      }

  unfoldable pub advance : FeatureState F → Observation F → FeatureState F
  unfolding close_candle form_candle
  advance s o =
      let t = record s {
        last_close = some o.candle.close;
        indicators = store_indicators o.indicators s.indicators;
      } in
      if o.status == "confirmed" then close_candle t o else form_candle t o
