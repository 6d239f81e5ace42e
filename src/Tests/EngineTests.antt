-- ===== src/Tests/EngineTests.antt =====
-- The theorems on the engine, at a concrete definition, engine and batches.
use alerts.Common.{
  ℕ, ◌*◌, ◌≡◌, refl, ◌↔◌, Bool, true, false, some, List, [], ◌∷◌, arith, ◌==◌, string_eq, str_beq,
  err, is_some, nat_eq,
}
use alerts.Common.Int.{pos, second}
use alerts.Model.{
  series_key, Observation, SeriesEvaluationState, empty_series_state, empty_definition_state,
  AlertDefinition,
}
use alerts.Rules.Kinds.{pulse, rule_type}
use alerts.Store.{definition_state_key}
use alerts.Store.Memory.{new_memory}
use alerts.Engine.State.{Engine, new_with_ownership}
use alerts.Engine.Policy.{stale, triggers, next_definition_state}
use alerts.Engine.Policy.Order.{Before, position_in, position_of, stale_iff}
use alerts.Engine.Policy.Triggers.{
  fired, SpacedFrom, BarsAfter, fired-SpacedFrom, fired-BarsAfter, no_second_trigger,
}
use alerts.Engine.Partitions.{owns, partition_of, partition_for_key, definition_series_key}
use alerts.Engine.Partitions.Keys.{
  lacks, definition_series_key-definition_state_key, partition_for_key-series_key,
}
use alerts.Engine.Run.{wrong_partition, evaluate_batch}
use alerts.Engine.Run.Atomic.{Outcome, Restrained, evaluate_batch_atomic}
use alerts.Engine.Run.Reachable.{start, upserted, evaluate_batch_safe}
use alerts.Common.Dict.{lookup, insert}
use alerts.Rules.Validate.{validate_at}
use alerts.Rules.Evaluate.{compile, evaluate_detailed}
use alerts.Rules.Advance.{advance}
use alerts.Engine.Routes.{upsert_definition, definitions_for, route, has_id, sort_by_id}
use alerts.Engine.Batch.{Batch, empty_batch}
use alerts.Engine.Reset.{of_series, accept_reset}
use alerts.Engine.Reset.Committed.{IsRebuilt, accept_reset-IsRebuilt}
use alerts.Engine.State.{PartitionRuntime}
use alerts.Common.{or_zero, String}
use alerts.Common.Dict.{delete_if}
use alerts.Model.{empty_definition_state, DefinitionEvaluationState}
use alerts.Tests.{fallen}
use alerts.Tests.{
  whole_numbers, sample_platform, bitcoin, first, second_frame, red_alert, sample_repository,
  sample_engine,
}

-- A series whose last frame was the first one.
abbrev seen : SeriesEvaluationState ℕ
seen = record empty_series_state {
  last_open_time = 100;
  last_revision = 1;
  last_status = "confirmed";
}

stale_iff_example :
    (stale second_frame seen ≡ false) ↔ Before (position_in seen) (position_of second_frame)
stale_iff_example = stale_iff second_frame seen refl

abbrev frames : List (Observation ℕ × Bool)
frames = (first, true) ∷ (second_frame, true) ∷ []

fired-SpacedFrom_example :
    SpacedFrom (60 * second) 0 (fired red_alert empty_definition_state frames)
fired-SpacedFrom_example =
    fired-SpacedFrom red_alert 60 (omega arith) refl empty_definition_state frames 0 (omega arith)
      (omega arith, omega arith, (omega arith, omega arith, tt))

fired-BarsAfter_example : BarsAfter 0 (fired red_alert empty_definition_state frames)
fired-BarsAfter_example =
    fired-BarsAfter red_alert empty_definition_state frames 0 refl (omega arith)
      (omega arith, omega arith, (omega arith, omega arith, tt))

abbrev edge_alert : AlertDefinition ℕ
edge_alert = record red_alert { trigger_mode = "on_occurrence"; cooldown_seconds = pos 0 }

not_every : (edge_alert.trigger_mode == "every_match") ≡ false
unfolding str_beq
not_every = refl

not_per_bar : (edge_alert.trigger_mode == "once_per_bar") ≡ false
unfolding str_beq
not_per_bar = refl

color_is_steady : pulse edge_alert.rule ≡ false
unfolding pulse rule_type str_beq
color_is_steady = refl

no_second_trigger_example :
    triggers edge_alert second_frame true
      (next_definition_state edge_alert first true empty_definition_state)
    ≡ false
no_second_trigger_example =
    no_second_trigger edge_alert first second_frame empty_definition_state not_every not_per_bar
      color_is_steady refl

red_lacks_bar : lacks b'|' "red" ≡ true
unfolding lacks
red_lacks_bar = refl

definition_series_key-definition_state_key_example :
    definition_series_key (definition_state_key "red" "live/BTCUSDT/1m") ≡ "live/BTCUSDT/1m"
definition_series_key-definition_state_key_example =
    definition_series_key-definition_state_key "red" "live/BTCUSDT/1m" red_lacks_bar

dataset_lacks_slash : lacks b'/' bitcoin.dataset ≡ true
unfolding lacks
dataset_lacks_slash = refl

symbol_lacks_slash : lacks b'/' bitcoin.symbol ≡ true
unfolding lacks
symbol_lacks_slash = refl

partition_for_key-series_key_example :
    partition_for_key 256 (series_key bitcoin) ≡ partition_of 256 bitcoin
partition_for_key-series_key_example =
    partition_for_key-series_key 256 bitcoin dataset_lacks_slash symbol_lacks_slash

-- Two partitions; the second frame is of a series that belongs to the other one.
abbrev two_partitions : Engine ℕ
two_partitions = (upsert_definition red_alert (new_with_ownership 2 0 1)).0

abbrev strayed : Observation ℕ
strayed = record second_frame { series = record bitcoin { timeframe = "2m" } }

-- The first frame has been evaluated when the second one ends the call.
abbrev failed : Outcome sample_repository
failed = (
  record two_partitions { metrics = record { stale_events = 0; reset_events = 0; rule_evals = 1 } },
  new_memory,
  err (wrong_partition "live/BTCUSDT/2m"),
)

refused :
    evaluate_batch sample_repository two_partitions new_memory
      (pos (partition_of 2 bitcoin))
      1
      (first ∷ strayed ∷ [])
    ≡ some failed
unfolding evaluate_batch upsert_definition compile validate_at rule_type str_beq new_with_ownership
    partition_of series_key definitions_for route lookup insert advance evaluate_detailed owns
    has_id sort_by_id
refused = refl

evaluate_batch_atomic_example : Restrained sample_repository two_partitions failed
evaluate_batch_atomic_example =
    evaluate_batch_atomic sample_repository two_partitions new_memory (pos (partition_of 2 bitcoin))
      1 (first ∷ strayed ∷ []) refused

evaluate_batch_safe_example :
    is_some (
      evaluate_batch sample_repository sample_engine new_memory
        (pos 0)
        1
        (first ∷ second_frame ∷ []))
    ≡ true
evaluate_batch_safe_example =
    evaluate_batch_safe sample_repository (upserted (start 1 0 1) red_alert) new_memory (pos 0) 1
      (first ∷ second_frame ∷ [])

-- A reset of a series whose definition has a committed trigger.
abbrev corrected : Observation ℕ
corrected = record first { reset = true; history = fallen 50 ∷ [] }

abbrev triggered : DefinitionEvaluationState
triggered = record empty_definition_state { last_trigger_at = 40; last_alert_bar = 30 }

abbrev red_key : String
red_key = "red|live/BTCUSDT/1m"

abbrev before_reset : PartitionRuntime ℕ
before_reset = record { series = []; definitions = (red_key, triggered) ∷ [] }

abbrev nothing_yet : Batch ℕ
nothing_yet = empty_batch (record { stale_events = 0; reset_events = 0; rule_evals = 0 })

abbrev after_reset : Batch ℕ
after_reset =
    or_zero nothing_yet (accept_reset sample_engine.by_route before_reset corrected nothing_yet)

reset_done :
    accept_reset sample_engine.by_route before_reset corrected nothing_yet ≡ some after_reset
unfolding accept_reset upsert_definition compile validate_at rule_type str_beq new_with_ownership
    series_key definitions_for route lookup insert advance evaluate_detailed has_id sort_by_id
reset_done = refl

red_key_belongs : of_series (series_key bitcoin) red_key ≡ true
unfolding str_beq definition_series_key series_key
red_key_belongs = refl

reset_found :
    lookup red_key after_reset.definition_states
    ≡ some (record triggered { last_truth_confirmed = true })
unfolding accept_reset upsert_definition compile validate_at rule_type str_beq new_with_ownership
    series_key definitions_for route lookup insert advance evaluate_detailed has_id sort_by_id
    delete_if definition_state_key
reset_found = refl

accept_reset-IsRebuilt_example :
    IsRebuilt before_reset red_key (record triggered { last_truth_confirmed = true })
accept_reset-IsRebuilt_example =
    accept_reset-IsRebuilt sample_engine.by_route before_reset corrected nothing_yet after_reset
      red_key (record triggered { last_truth_confirmed = true }) reset_done red_key_belongs
      reset_found
