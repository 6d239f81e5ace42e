-- ===== src/Signals.antt =====
-- internal/signals/adapter.go: a market-state event of signald as an observation.
pub mod Adapted
use alerts.Common.{
  ℕ, String, Bool, true, false, not, ◌&&◌, ◌||◌, Option, none, some, List, [], ◌∷◌, ◌++◌, map, ◌==◌,
  nat_eq, string_eq, if◌then◌else◌, or_zero, ◌>>=◌, Result, ok, err,
}
use alerts.Common.Int.{ℤ}
use alerts.Common.Dict.{Dict, lookup}
use alerts.Common.Text.{codes, atoi}
use alerts.Model.{
  Float64, Time, Series, Candle, AlgorithmRef, Indicator, Zone, ZoneTransition, Pattern,
  Observation,
}

abbrev pub analysis_event_type : String
analysis_event_type = "io.ytstack.signals.analysis.updated.v1"

-- The parts of an event that the adapter reads; instants are in UTC, and the value of an output is raw JSON.
pub record Bar (F : Type 0) : Type 0 where
  pub candle : Candle F
  pub status : String
  pub source_id : String

pub record Output : Type 0 where
  pub name : String
  pub value : String

pub record Event (F : Type 0) : Type 0 where
  pub id : String
  pub type : String
  pub time : Time
  pub correlation_id : String
  pub series : Series
  pub bar : Bar F
  pub analysis_name : String
  pub analysis_revision : ℕ
  pub reset : Bool
  pub history : List (Candle F)
  pub algorithm_version : String
  pub config_hash : String
  pub outputs : List Output

-- A value of map[string]any, as far as the adapter tells them apart.
pub data Attribute (F : Type 0) : Type 0 where
  text_value : String → Attribute F
  number_value : F → Attribute F
  other_value : Attribute F

-- The types zone and point
pub record RawZone (F : Type 0) : Type 0 where
  pub id : String
  pub upper : F
  pub lower : F
  pub label : String
  pub direction : String
  pub state : String
  pub attributes : Dict String (Attribute F)

pub record Point (F : Type 0) : Type 0 where
  pub label : String
  pub direction : String
  pub attributes : Dict String (Attribute F)

-- What the adapter takes from encoding/json: json.Unmarshal of an output into a float64, a list of zones and a
-- list of points. none is an error.
pub record Json (F : Type 0) : Type 0 where
  pub number_of : String → Option F
  pub zones_of : String → Option (List (RawZone F))
  pub points_of : String → Option (List (Point F))

pub data SignalError : Type 0 where
  bad_envelope incomplete_analysis wrong_correlation : SignalError
  invalid_output : String → SignalError

-- What follows a prefix
unfoldable pub after_prefix : List ℕ → List ℕ → Option (List ℕ)
after_prefix [] s = some s
after_prefix (c ∷ p) [] = none
after_prefix (c ∷ p) (d ∷ s) = let rest = after_prefix p s in if c == d then rest else none

-- The observation before its outputs are read
abbrev pub bare_observation : {F : Type 0} → Event F → Observation F
bare_observation event = record {
  schema = "alerts.observation.v1";
  source_event_id = event.id;
  correlation_id = event.correlation_id;
  occurred_at = event.time;
  status = event.bar.status;
  revision = event.analysis_revision;
  reset = event.reset;
  history = event.history;
  series = event.series;
  candle = event.bar.candle;
  indicators = [];
  active_zones = [];
  zone_transitions = [];
  patterns = [];
  feature_algorithm = record {
    name = event.analysis_name;
    version = event.algorithm_version;
    config_hash = event.config_hash;
  };
}

module _ {F : Type 0} ⦃fl : Float64 F⦄ where
  -- text and number: the zero value where a key is missing or has another type
  unfoldable pub text : Option (Attribute F) → String
  text (some (text_value s)) = s
  text (some (number_value x)) = ""
  text (some other_value) = ""
  text none = ""

  unfoldable pub number : Option (Attribute F) → F
  number (some (text_value s)) = fl.float 0
  number (some (number_value x)) = x
  number (some other_value) = fl.float 0
  number none = fl.float 0

  unfoldable pub source_side : String → Dict String (Attribute F) → String
  unfolding text lookup
  source_side direction attributes =
      let side = text (lookup "source_direction" attributes) in
      if not (side == "")
      then side
      else if direction == "bullish"
      then "up"
      else if direction == "bearish"
      then "down"
      else ""

  unfoldable pub zone_of : RawZone F → Zone F
  unfolding source_side
  zone_of z = record {
    id = z.id;
    kind = z.label;
    side = source_side z.direction z.attributes;
    state = z.state;
    upper = z.upper;
    lower = z.lower;
  }

  unfoldable pub transition_of : Point F → ZoneTransition F
  unfolding source_side number
  transition_of q = record {
    id = text (lookup "zone_id" q.attributes);
    kind = text (lookup "kind" q.attributes);
    side = source_side q.direction q.attributes;
    transition = text (lookup "transition" q.attributes);
    upper = number (lookup "upper" q.attributes);
    lower = number (lookup "lower" q.attributes);
  }

  unfoldable pub pattern_of : Point F → Pattern
  unfolding source_side
  pattern_of q = record { kind = q.label; side = source_side q.direction q.attributes }

  module _ (json : Json F) where
    add_average : Output → List ℕ → Observation F → Result SignalError (Observation F)
    add_average output period o = elim (atoi period) [
      | none ↦ err (invalid_output output.name)
      | some n ↦ elim (json.number_of output.value) [
        | none ↦ err (invalid_output output.name)
        | some x ↦ ok (record o {
          indicators =
              o.indicators ++ record { name = "ema"; period = n; value = x; ready = true } ∷ [];
        })
      ]
    ]

    -- One case of the switch that has a list to decode.
    decoded :
        {A : Type 0}
        → Output
        → Option (List A)
        → (List A → Observation F)
        → Result SignalError (Observation F)
    decoded output none f = err (invalid_output output.name)
    decoded output (some xs) f = ok (f xs)

    -- The cases of the switch that have a list; other names are passed over.
    add_listed : Output → Observation F → Result SignalError (Observation F)
    unfolding decoded zone_of transition_of pattern_of
    add_listed output o =
        if output.name == "fvgs" || output.name == "order_blocks"
        then decoded output (json.zones_of output.value)
            (λ zs. record o { active_zones = o.active_zones ++ map zone_of zs })
        else if output.name == "zone_transitions"
        then decoded output (json.points_of output.value)
            (λ ps. record o { zone_transitions = o.zone_transitions ++ map transition_of ps })
        else if output.name == "pattern_occurrences"
        then decoded output (json.points_of output.value)
            (λ ps. record o { patterns = o.patterns ++ map pattern_of ps })
        else ok o

    -- The switch on the name of an output
    unfoldable pub add_output : Output → Observation F → Result SignalError (Observation F)
    unfolding add_average add_listed after_prefix
    add_output output o = elim (after_prefix (codes "ema_") (codes output.name)) [
      | some period ↦ add_average output period o
      | none ↦ add_listed output o
    ]

    unfoldable pub add_outputs :
        List Output → Result SignalError (Observation F) → Result SignalError (Observation F)
    unfolding add_output
    add_outputs outputs (err x) = err x
    add_outputs [] (ok o) = ok o
    add_outputs (output ∷ outputs) (ok o) = add_outputs outputs (add_output output o)

    -- Observation
    unfoldable pub adapt : Event F → Result SignalError (Observation F)
    unfolding add_outputs
    adapt event =
        if not (event.type == analysis_event_type) || event.id == "" || event.correlation_id == ""
        then err bad_envelope
        else if not (event.analysis_name == "smc.market_state")
        then err incomplete_analysis
        else if event.bar.source_id == "" || not (event.bar.source_id == event.correlation_id)
        then err wrong_correlation
        else add_outputs event.outputs (ok (bare_observation event))
