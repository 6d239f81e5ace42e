-- ===== src/Service/Observations.antt =====
-- validateObservation of internal/service/service.go.
use alerts.Common.{
  Bool, not, ◌&&◌, ◌||◌, Option, none, some, List, [], ◌∷◌, any, ◌==◌, nat_eq, string_eq,
  if◌then◌else◌,
}
use alerts.Common.Int.{pos, ltb_ℤ}
use alerts.Model.{Float64, is_zero, Candle, Indicator, Observation}

-- The messages of validateObservation. The price that not_finite would name depends on the order of a map.
pub data ObservationError : Type 0 where
  bad_envelope bad_status reset_not_confirmed bad_prices not_finite bad_indicator bad_history :
      ObservationError

module _ {F : Type 0} ⦃fl : Float64 F⦄ where
  -- The high is below another price, or the low above one.
  abbrev pub is_crossed : Candle F → Bool
  is_crossed c =
      fl.lt c.high c.low
      || fl.lt c.high c.open_price
      || fl.lt c.high c.close
      || fl.lt c.open_price c.low
      || fl.lt c.close c.low

  abbrev pub is_infinite : F → Bool
  is_infinite x = fl.is_nan x || fl.is_inf x

  abbrev pub is_bad_indicator : Indicator F → Bool
  is_bad_indicator i = i.name == "" || ltb_ℤ i.period (pos 1) || is_infinite i.value

  abbrev pub is_bad_bar : Candle F → Bool
  is_bad_bar c = is_zero c.open_time || is_crossed c

  abbrev pub lacks_envelope : Observation F → Bool
  lacks_envelope o =
      not (o.schema == "alerts.observation.v1")
      || o.source_event_id == ""
      || o.correlation_id == ""
      || o.series.symbol == ""
      || o.series.timeframe == ""
      || is_zero o.candle.open_time
      || is_zero o.occurred_at

  -- none is a nil error.
  unfoldable pub validate_observation : Observation F → Option ObservationError
  validate_observation o =
      if lacks_envelope o
      then some bad_envelope
      else if not (o.status == "confirmed") && not (o.status == "provisional")
      then some bad_status
      else if o.reset && not (o.status == "confirmed")
      then some reset_not_confirmed
      else if is_crossed o.candle
      then some bad_prices
      else if is_infinite o.candle.open_price
          || is_infinite o.candle.high
          || is_infinite o.candle.low
          || is_infinite o.candle.close
      then some not_finite
      else if any is_bad_indicator o.indicators
      then some bad_indicator
      else if any is_bad_bar o.history
      then some bad_history
      else none

  -- The first error of a batch.
  unfoldable pub validate_all : List (Observation F) → Option ObservationError
  unfolding validate_observation
  validate_all [] = none
  validate_all (o ∷ os) =
      let rest = validate_all os in elim (validate_observation o) [ some e ↦ some e | none ↦ rest ]
