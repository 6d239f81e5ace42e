-- ===== src/Tests/BrokerTests.antt =====
-- The theorems on the adapter of signald's events and on the broker, at a concrete event and message.
use alerts.Common.{
  ℕ, ◌*◌, ◌≤◌, ◌<◌, true, false, none, some, [], ◌∷◌, ok, err, ◌==◌, string_eq, if◌then◌else◌, ◌≡◌,
  ◌↔◌, refl, All, str_beq, arith,
}
use alerts.Common.Text.{codes}
use alerts.Common.Int.{pos, leb_ℤ, second}
use alerts.Engine.Partitions.{owns}
use alerts.Signals.{Event, Json, adapt, bare_observation, analysis_event_type}
use alerts.Signals.Adapted.{IsComplete, Carries, IsAverage, adapt-IsFrom}
use alerts.Broker.{
  publish, terminate, ack, nak, ingest, Message, Answers, Decoder, evaluation_partitions,
  retry_delay,
}
use alerts.Broker.Delays.{retry_delay_bounds}
use alerts.Broker.Streams.{consumed_shards}
use alerts.Broker.Streams.Shards.{Holds, consumed_shards_iff}
use alerts.Tests.{whole_numbers, bitcoin, fallen}

abbrev market_state : Event ℕ
market_state = record {
  id = "event-1";
  type = analysis_event_type;
  time = 100;
  correlation_id = "candle";
  series = bitcoin;
  bar = record { candle = fallen 40; status = "confirmed"; source_id = "candle" };
  analysis_name = "smc.market_state";
  analysis_revision = 1;
  reset = false;
  history = [];
  algorithm_version = "1";
  config_hash = "";
  outputs = record { name = "fvgs"; value = "[]" } ∷ [];
}

-- No output has anything in it.
abbrev empty_json : Json ℕ
empty_json = record {
  number_of = λ text. none;
  zones_of = λ text. some [];
  points_of = λ text. some [];
}

adapted : adapt empty_json market_state ≡ ok (bare_observation market_state)
unfolding adapt str_beq codes
adapted = refl

adapt-IsFrom_example :
    IsComplete market_state
    × Carries market_state (bare_observation market_state)
    × All IsAverage (bare_observation market_state).indicators
adapt-IsFrom_example = adapt-IsFrom empty_json market_state (bare_observation market_state) adapted

abbrev message : Message
message = record {
  payload = "{}";
  subject = "signals.evaluation.001.x";
  message_id = "event-1";
  delivered = some 3;
}

-- The text of the first message is an event, and any other text is none.
abbrev decoder : Decoder ℕ
decoder = record {
  event_of = λ text. if text == "{}" then ok market_state else err "no event";
  json = empty_json;
  message_of = λ x. "";
}

abbrev unreadable : Message
unreadable = record message { payload = "" }

-- Nothing fails but the evaluation.
abbrev unwilling : Answers ℕ
unwilling [] = none
unwilling (ingest partition os ∷ log) = some "busy"
unwilling (publish m ∷ log) = none
unwilling (terminate m ∷ log) = none
unwilling (ack m ∷ log) = none
unwilling (nak m delay ∷ log) = none

three_twelve : 3 ≤ 12
three_twelve = ground arith

retry_delay_bounds_example :
    (leb_ℤ (pos second) (retry_delay 3) ≡ true)
    × (leb_ℤ (retry_delay 3) (retry_delay 12) ≡ true)
    × (leb_ℤ (retry_delay 12) (pos (300 * second)) ≡ true)
retry_delay_bounds_example = retry_delay_bounds 3 12 three_twelve

consumed_shards_iff_example :
    Holds (consumed_shards 1 4) 5 ↔ ((5 < evaluation_partitions) × (owns 1 4 5 ≡ true))
consumed_shards_iff_example = consumed_shards_iff 1 4 5
