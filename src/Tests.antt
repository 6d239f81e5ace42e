-- ===== src/Tests.antt =====
-- Concrete inputs: prices in whole numbers, two rules, a definition, frames, a repository and an engine.
pub mod RulesTests
pub mod EngineTests
pub mod RefinementTests
pub mod StoreTests
pub mod ServiceTests
pub mod ApiTests
pub mod ManifestTests
pub mod BrokerTests
pub mod ConfigTests
use alerts.Common.{
  ℕ, zero, ◌+◌, ◌-◌, ◌*◌, ◌/◌, String, Bool, true, false, Option, none, some, List, [], ◌∷◌, ltb,
  leb, ◌==◌, string_eq, if◌then◌else◌, Result, ok, err,
}
use alerts.Common.Int.{ℤ, pos, pos_part, second}
use alerts.Common.Text.{itoa}
use alerts.Model.{
  Float64, Platform, Series, Candle, Observation, RuleFields, Rule, node, Rules, no_rules, rules,
  nil, AlertDefinition, Alert, FeatureState, empty_features,
}
use alerts.Service.{Service}
use alerts.Store.{Repository, RuntimeBatch, not_found}
use alerts.Store.Memory.{Memory, set_enabled, archive_definition, list_definitions}
use alerts.Store.Memory.Outbox.{
  commit_runtime_batch, load_runtime_states, list_alerts, claim_pending, mark_published,
}
use alerts.Engine.State.{Engine, new_with_ownership}
use alerts.Engine.Routes.{upsert_definition}

instance abbrev pub whole_numbers : Float64 ℕ
whole_numbers = record {
  float = λ n. n;
  lt = ltb;
  le = leb;
  add = λ a b. a + b;
  sub = λ a b. a - b;
  mul = λ a b. a * b;
  div = λ a b. a / b;
  is_nan = λ a. false;
  is_inf = λ a. false;
  seconds = λ d. pos_part d / second;
  fixed = λ n a. itoa (pos a);
}

instance abbrev pub sample_platform : Platform ℕ
sample_platform = record {
  sha256_hex = λ text. "0123456789abcdef0123456789abcdef0123456789abcdef0123456789abcdef";
  marshal = λ o. some "{}";
  parse_duration = λ text. if text == "1m" then some (pos (60 * second)) else none;
}

abbrev pub no_fields : String → RuleFields ℕ
no_fields type = record {
  type = type;
  kind = "";
  side = "";
  transition = "";
  name = "";
  period = pos 0;
  direction = "";
  count = pos 0;
  distance_bps = 0;
  min_elapsed_percent = 0;
}

abbrev pub streak_fields : RuleFields ℕ
streak_fields = record (no_fields "candle_streak") { direction = "red"; count = pos 2 }

abbrev pub red_streak : Rule ℕ
red_streak = node streak_fields no_rules nil

abbrev pub red_candle : Rule ℕ
red_candle = node (record (no_fields "candle_color") { direction = "red" }) no_rules nil

abbrev pub red_both : Rule ℕ
red_both = node (no_fields "all") (rules red_streak (rules red_candle no_rules)) nil

abbrev pub bitcoin : Series
bitcoin = record { dataset = "live"; symbol = "BTCUSDT"; timeframe = "1m" }

abbrev pub fallen : ℕ → Candle ℕ
fallen open_time = record {
  open_time = open_time;
  open_price = 10;
  high = 11;
  low = 8;
  close = 9;
  volume = 1;
  trades = 1;
}

-- A confirmed red candle that opens at a time and is seen a second later.
abbrev pub frame : ℕ → String → Observation ℕ
frame open_time id = record {
  schema = "alerts.observation.v1";
  source_event_id = id;
  correlation_id = "candle";
  occurred_at = open_time + second;
  status = "confirmed";
  revision = 1;
  reset = false;
  history = [];
  series = bitcoin;
  candle = fallen open_time;
  indicators = [];
  active_zones = [];
  zone_transitions = [];
  patterns = [];
  feature_algorithm = record { name = ""; version = ""; config_hash = "" };
}

abbrev pub first : Observation ℕ
first = frame 100 "event-1"

abbrev pub second_frame : Observation ℕ
second_frame = frame 200 "event-2"

abbrev pub after_red : FeatureState ℕ
after_red = record empty_features { candle_colors = "red" ∷ [] }

abbrev pub red_alert : AlertDefinition ℕ
red_alert = record {
  id = "red";
  version = pos 1;
  definition_hash = "hash";
  name = "red candle";
  enabled = true;
  series = bitcoin;
  rule = red_candle;
  evaluation_mode = "confirmed_close";
  trigger_mode = "once_per_bar";
  cooldown_seconds = pos 60;
  created_at = 1;
  updated_at = 1;
  effective_at = 1;
}

-- A repository that keeps the alerts and the states, and has no definitions of its own.
abbrev pub sample_repository : Repository ℕ (Memory ℕ)
sample_repository = record {
  create_definition = λ m d. (m, ok (d, true));
  list_definitions = λ m now. ok (list_definitions now m);
  set_enabled = λ m id enabled effective now. set_enabled id enabled effective now m;
  archive_definition = λ m id effective. archive_definition id effective m;
  load_runtime_states = λ m partitions. ok (load_runtime_states partitions m);
  commit_runtime_batch = λ m b. let r = commit_runtime_batch b m in (r.0, ok r.1);
  list_alerts = λ m after limit. ok (list_alerts after limit m);
  claim_pending = λ m limit. (m, ok (claim_pending limit m));
  mark_published = λ m id. mark_published id m;
  mark_publish_failed = λ m id message. (m, ok tt);
}

-- One partition, one worker and one definition.
abbrev pub sample_engine : Engine ℕ
sample_engine = (upsert_definition red_alert (new_with_ownership 1 0 1)).0

abbrev pub sample_service : Service ℕ
sample_service = record {
  engine = sample_engine;
  metrics = record {
    observations = 0;
    alerts = 0;
    batches = 0;
    ingest_fails = 0;
    eval_nanos = 0;
    eval_buckets = [];
  };
  wake = false;
  activation_delay = 2000000000;
  definition_max_staleness = pos 0;
}
