-- ===== src/Engine/Reset.antt =====
-- The branch of EvaluateBatch in internal/runtime/engine.go for an authoritative reset, and the whole
-- step for one observation.
pub mod Committed
use alerts.Common.{
  String, Bool, false, not, ◌&&◌, Option, some, List, [], ◌∷◌, ◌++◌, ◌==◌, string_eq, if◌then◌else◌,
  or_zero, ◌>>=◌,
}
use alerts.Common.Dict.{lookup, insert, delete_if}
use alerts.Model.{
  Float64, Platform, Time, Candle, series_key, Observation, FeatureState, SeriesEvaluationState,
  empty_features, empty_definition_state,
}
use alerts.Rules.Evaluate.{evaluate_detailed}
use alerts.Rules.Advance.{advance}
use alerts.Store.{definition_state_key}
use alerts.Engine.Policy.{accepts_mode, stale, stale_reset}
use alerts.Engine.State.{CompiledDefinition, PartitionRuntime}
use alerts.Engine.Partitions.{definition_series_key}
use alerts.Engine.Routes.{Routes, definitions_for}
use alerts.Engine.Batch.{
  Batch, mark_reset, count_stale, count_reset, count_eval, series_state_of, bar_observation,
  accept_frame,
}

-- A definition's state is dropped with its series.
abbrev pub of_series : String → String → Bool
of_series key state_key = definition_series_key state_key == key

module _ {F : Type 0} ⦃fl : Float64 F⦄ where
  unfoldable pub rebuild_features : FeatureState F → List (Candle F) → FeatureState F
  unfolding advance
  rebuild_features s [] = s
  rebuild_features s (bar ∷ bars) = rebuild_features (advance s (bar_observation bar)) bars

  -- The series that a reset leaves.
  unfoldable pub reset_series_state : Observation F → FeatureState F → SeriesEvaluationState F
  unfolding advance
  reset_series_state o feature = record {
    last_open_time = o.candle.open_time;
    last_revision = o.revision;
    last_status = o.status;
    last_reset_id = o.source_event_id;
    last_reset_at = o.occurred_at;
    confirmed = advance feature o;
    intrabar = advance feature o;
    active_zones = o.active_zones;
  }

  module _ ⦃pl : Platform F⦄ where
    -- The truth of a definition after a reset; the rest of its state is the committed one.
    unfoldable pub rebuild_truth : PartitionRuntime F → String → String → Bool → Batch F → Batch F
    rebuild_truth p key id truth b =
        let state_key = definition_state_key id key in
        let s = or_zero empty_definition_state (lookup state_key p.definitions) in
        record b {
          definition_states =
              insert state_key
                (record s { last_truth_confirmed = truth; last_truth_intrabar = false })
                b.definition_states;
          metrics = count_eval b.metrics;
        }

    unfoldable pub rebuild_definitions :
        PartitionRuntime F
        → String
        → Observation F
        → FeatureState F
        → List (CompiledDefinition F)
        → Batch F
        → Option (Batch F)
    unfolding rebuild_truth evaluate_detailed accepts_mode
    rebuild_definitions p key o feature [] b = some b
    rebuild_definitions p key o feature (c ∷ cs) b =
        let skipped = rebuild_definitions p key o feature cs b in
        if accepts_mode c.definition.evaluation_mode "confirmed"
        then (evaluate_detailed c.rule o feature >>= λ r.
            rebuild_definitions p key o feature cs (rebuild_truth p key c.definition.id r.0 b))
        else skipped

    unfoldable pub accept_reset :
        Routes F → PartitionRuntime F → Observation F → Batch F → Option (Batch F)
    unfolding rebuild_definitions rebuild_features reset_series_state
    accept_reset routes p o b =
        let key = series_key o.series in
        let feature = rebuild_features empty_features o.history in
        let cleared = record b {
          definition_states = delete_if (of_series key) b.definition_states;
          reset_series = mark_reset key b;
          metrics = count_reset b.metrics;
        } in
        rebuild_definitions p key o feature (definitions_for routes o.series) cleared >>= λ t.
        some (record t {
          series_states = insert key (reset_series_state o feature) t.series_states;
          accepted = t.accepted ++ o ∷ [];
        })

    -- One observation of a batch, once its partition has been checked.
    unfoldable pub step :
        Routes F → PartitionRuntime F → Time → Observation F → Batch F → Option (Batch F)
    unfolding accept_reset accept_frame stale stale_reset series_state_of
    step routes p now o b =
        let s = series_state_of p (series_key o.series) b in
        if o.reset && stale_reset o s
        then some (record b { metrics = count_stale b.metrics })
        else if not o.reset && stale o s
        then some (record b { metrics = count_stale b.metrics })
        else if o.reset
        then accept_reset routes p o b
        else accept_frame routes p now o b
