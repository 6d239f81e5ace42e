-- ===== src/Model.antt =====
-- internal/model/model.go: the data that the parts of alertsd exchange.
-- A float64 is a value of the parameter F (Float64 lists its operations), an instant is the number of
-- nanoseconds since Go's zero time, and an `int` is an integer.
use alerts.Common.{ℕ, String, ◌<>◌, Bool, false, Option, none, List, [], ◌==◌, nat_eq, string_eq}
use alerts.Common.Int.{ℤ}
use alerts.Common.Dict.{Dict}

-- The operations on float64 that the code uses. `fixed n x` is fmt's %.nf.
pub record Float64 (F : Type 0) : Type 0 where
  pub float : ℕ → F
  pub lt : F → F → Bool
  pub le : F → F → Bool
  pub add : F → F → F
  pub sub : F → F → F
  pub mul : F → F → F
  pub div : F → F → F
  pub is_nan : F → Bool
  pub is_inf : F → Bool
  pub seconds : ℤ → F  -- Duration.Seconds
  pub fixed : ℕ → F → String

-- Instants: time.Time, as nanoseconds since the zero time. UTC() changes no instant.
abbrev pub Time : Type 0
Time = ℕ

-- t.IsZero()
abbrev pub is_zero : Time → Bool
is_zero t = t == 0

pub record Series : Type 0 where
  pub dataset : String
  pub symbol : String
  pub timeframe : String

unfoldable pub series_key : Series → String
series_key s = s.dataset <> "/" <> s.symbol <> "/" <> s.timeframe

pub record Candle (F : Type 0) : Type 0 where
  pub open_time : Time
  pub open_price : F
  pub high : F
  pub low : F
  pub close : F
  pub volume : F
  pub trades : ℕ

pub record AlgorithmRef : Type 0 where
  pub name : String
  pub version : String
  pub config_hash : String

pub record FactReference (F : Type 0) : Type 0 where
  pub kind : String
  pub id : String
  pub side : String
  pub name : String
  pub value : F

pub record Indicator (F : Type 0) : Type 0 where
  pub name : String
  pub period : ℤ
  pub value : F
  pub ready : Bool

pub record ZoneTransition (F : Type 0) : Type 0 where
  pub id : String
  pub kind : String
  pub side : String
  pub transition : String
  pub upper : F
  pub lower : F

pub record Zone (F : Type 0) : Type 0 where
  pub id : String
  pub kind : String
  pub side : String
  pub state : String
  pub upper : F
  pub lower : F

pub record Pattern : Type 0 where
  pub kind : String
  pub side : String

pub record Observation (F : Type 0) : Type 0 where
  pub schema : String
  pub source_event_id : String
  pub correlation_id : String
  pub occurred_at : Time
  pub status : String
  pub revision : ℕ
  pub reset : Bool
  pub history : List (Candle F)
  pub series : Series
  pub candle : Candle F
  pub indicators : List (Indicator F)
  pub active_zones : List (Zone F)
  pub zone_transitions : List (ZoneTransition F)
  pub patterns : List Pattern
  pub feature_algorithm : AlgorithmRef

-- What the code takes from packages crypto/sha256, encoding/json and time: the hexadecimal digits of
-- the SHA-256 sum of a text, json.Marshal of an observation, and time.ParseDuration. none is an error.
pub record Platform (F : Type 0) : Type 0 where
  pub sha256_hex : String → String
  pub marshal : Observation F → Option String
  pub parse_duration : String → Option ℤ

-- The fields of a Rule but for its children.
pub record RuleFields (F : Type 0) : Type 0 where
  pub type : String
  pub kind : String
  pub side : String
  pub transition : String
  pub name : String
  pub period : ℤ
  pub direction : String
  pub count : ℤ
  pub distance_bps : F
  pub min_elapsed_percent : F

-- A Rule has the list `rules` and the pointer `rule`, which may be nil.
mutual
  pub data Rule (F : Type 0) : Type 0 where
    node : RuleFields F → Rules F → RulePointer F → Rule F

  pub data Rules (F : Type 0) : Type 0 where
    no_rules : Rules F
    rules : Rule F → Rules F → Rules F

  pub data RulePointer (F : Type 0) : Type 0 where
    nil : RulePointer F
    pointer : Rule F → RulePointer F

pub record AlertDefinition (F : Type 0) : Type 0 where
  pub id : String
  pub version : ℤ
  pub definition_hash : String
  pub name : String
  pub enabled : Bool
  pub series : Series
  pub rule : Rule F
  pub evaluation_mode : String
  pub trigger_mode : String
  pub cooldown_seconds : ℤ
  pub created_at : Time
  pub updated_at : Time
  pub effective_at : Time

pub record Alert (F : Type 0) : Type 0 where
  pub schema : String
  pub id : String
  pub definition_id : String
  pub definition_version : ℤ
  pub definition_hash : String
  pub definition_name : String
  pub source_event_id : String
  pub source_candle_id : String
  pub series : Series
  pub triggered_at : Time
  pub evaluated_at : Time
  pub reasons : List String
  pub facts_used : List (FactReference F)
  pub feature_algorithm : AlgorithmRef
  pub source_revision : ℕ
  pub source_status : String
  pub observation : String  -- raw JSON
  pub publish_status : String
  pub cursor : ℕ

pub record FeatureState (F : Type 0) : Type 0 where
  pub last_close : Option F
  pub indicators : Dict String F
  pub candles : List (Candle F)
  pub candle_colors : List String
  pub forming_bar : Time
  pub forming_color : String

pub record SeriesEvaluationState (F : Type 0) : Type 0 where
  pub last_open_time : Time
  pub last_revision : ℕ
  pub last_status : String
  pub last_reset_id : String
  pub last_reset_at : Time
  pub confirmed : FeatureState F
  pub intrabar : FeatureState F
  pub active_zones : List (Zone F)

pub record DefinitionEvaluationState : Type 0 where
  pub last_truth_confirmed : Bool
  pub last_truth_intrabar : Bool
  pub last_trigger_at : Time
  pub last_alert_bar : Time

pub record EvaluationState (F : Type 0) : Type 0 where
  pub last_truth : Bool
  pub last_trigger_at : Time
  pub last_close : Option F
  pub indicators : Dict String F
  pub candle_colors : List String
  pub last_open_time : Time
  pub last_revision : ℕ
  pub last_status : String
  pub last_alert_bar : Time
  pub forming_bar : Time
  pub forming_color : String

-- The zero values of the state records.
abbrev pub empty_features : {F : Type 0} → FeatureState F
empty_features = record {
  last_close = none;
  indicators = [];
  candles = [];
  candle_colors = [];
  forming_bar = 0;
  forming_color = "";
}

abbrev pub empty_series_state : {F : Type 0} → SeriesEvaluationState F
empty_series_state = record {
  last_open_time = 0;
  last_revision = 0;
  last_status = "";
  last_reset_id = "";
  last_reset_at = 0;
  confirmed = empty_features;
  intrabar = empty_features;
  active_zones = [];
}

abbrev pub empty_definition_state : DefinitionEvaluationState
empty_definition_state = record {
  last_truth_confirmed = false;
  last_truth_intrabar = false;
  last_trigger_at = 0;
  last_alert_bar = 0;
}

abbrev pub empty_evaluation_state : {F : Type 0} → EvaluationState F
empty_evaluation_state = record {
  last_truth = false;
  last_trigger_at = 0;
  last_close = none;
  indicators = [];
  candle_colors = [];
  last_open_time = 0;
  last_revision = 0;
  last_status = "";
  last_alert_bar = 0;
  forming_bar = 0;
  forming_color = "";
}
