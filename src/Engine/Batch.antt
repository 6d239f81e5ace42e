-- ===== src/Engine/Batch.antt =====
-- The loop of EvaluateBatch in internal/runtime/engine.go, over the maps that it fills before the commit.
use alerts.Common.{
  String, Bool, false, not, ◌&&◌, Option, none, some, List, [], ◌∷◌, ◌++◌, ◌==◌, nat_eq, string_eq,
  if◌then◌else◌, or_zero, ◌>>=◌, any,
}
use alerts.Common.Dict.{Dict, lookup, insert}
use alerts.Model.{
  Float64, Platform, Time, Candle, FactReference, series_key, Observation, AlertDefinition, Alert,
  FeatureState, SeriesEvaluationState, DefinitionEvaluationState, empty_series_state,
  empty_definition_state,
}
use alerts.Rules.Kinds.{ignores_candle}
use alerts.Rules.Evaluate.{evaluate_detailed}
use alerts.Rules.Advance.{advance}
use alerts.Store.{definition_state_key}
use alerts.Engine.Policy.{definition_enabled_at, accepts_mode, triggers, next_definition_state}
use alerts.Engine.State.{CompiledDefinition, PartitionRuntime, Metrics, count_up}
use alerts.Engine.Routes.{Routes, definitions_for}
use alerts.Engine.Identity.{deterministic_id}

-- What a batch has computed so far; the counters are the engine's own and are never taken back.
pub record Batch (F : Type 0) : Type 0 where
  pub series_states : Dict String (SeriesEvaluationState F)
  pub definition_states : Dict String DefinitionEvaluationState
  pub reset_series : List String
  pub accepted : List (Observation F)
  pub alerts : List (Alert F)
  pub metrics : Metrics

abbrev pub empty_batch : {F : Type 0} → Metrics → Batch F
empty_batch m = record {
  series_states = [];
  definition_states = [];
  reset_series = [];
  accepted = [];
  alerts = [];
  metrics = m;
}

abbrev pub is_reset : {F : Type 0} → String → Batch F → Bool
is_reset key b = any (λ k. k == key) b.reset_series

-- resetSeries[key] = struct{}{}
abbrev pub mark_reset : {F : Type 0} → String → Batch F → List String
mark_reset key b = if is_reset key b then b.reset_series else b.reset_series ++ key ∷ []

abbrev pub count_stale : Metrics → Metrics
count_stale m = record m { stale_events = count_up m.stale_events }

abbrev pub count_reset : Metrics → Metrics
count_reset m = record m { reset_events = count_up m.reset_events }

abbrev pub count_eval : Metrics → Metrics
count_eval m = record m { rule_evals = count_up m.rule_evals }

-- The state of a series: of this batch, or else a copy of the committed one.
unfoldable pub series_state_of :
    {F : Type 0} → PartitionRuntime F → String → Batch F → SeriesEvaluationState F
series_state_of p key b =
    or_zero (or_zero empty_series_state (lookup key p.series)) (lookup key b.series_states)

-- The state of a definition: of this batch, or else the committed one unless the series was reset.
unfoldable pub definition_state_of :
    {F : Type 0} → PartitionRuntime F → String → String → Batch F → DefinitionEvaluationState
definition_state_of p key state_key b =
    or_zero
      (if is_reset key b
        then empty_definition_state
        else or_zero empty_definition_state (lookup state_key p.definitions))
      (lookup state_key b.definition_states)

-- A provisional frame without zones is evaluated with the zones of the series.
unfoldable pub with_zones : {F : Type 0} → Observation F → SeriesEvaluationState F → Observation F
with_zones o s = elim o.active_zones [
  | [] ↦ if o.status == "provisional" then record o { active_zones = s.active_zones } else o
  | z ∷ zs ↦ o
]

-- The features that a frame is evaluated with.
unfoldable pub features_for :
    {F : Type 0} → Observation F → SeriesEvaluationState F → FeatureState F
features_for o s =
    if o.status == "provisional"
    then (elim s.intrabar.last_close [
      | none ↦ elim s.confirmed.last_close [ none ↦ s.intrabar | some _ ↦ s.confirmed ]
      | some _ ↦ s.intrabar
    ])
    else s.confirmed

-- The zero Observation but for its status and candle, as the rebuild of the history makes it.
abbrev pub bar_observation : {F : Type 0} → Candle F → Observation F
bar_observation bar = record {
  schema = "";
  source_event_id = "";
  correlation_id = "";
  occurred_at = 0;
  status = "confirmed";
  revision = 0;
  reset = false;
  history = [];
  series = record { dataset = ""; symbol = ""; timeframe = "" };
  candle = bar;
  indicators = [];
  active_zones = [];
  zone_transitions = [];
  patterns = [];
  feature_algorithm = record { name = ""; version = ""; config_hash = "" };
}

module _ {F : Type 0} ⦃fl : Float64 F⦄ ⦃pl : Platform F⦄ where
  unfoldable pub make_alert :
      Time → AlertDefinition F → Observation F → List String → List (FactReference F) → Alert F
  unfolding deterministic_id
  make_alert now d o reasons facts = record {
    schema = "io.ytstack.alert.triggered.v1";
    id = deterministic_id pl.sha256_hex (d.id ∷ o.source_event_id ∷ []);
    definition_id = d.id;
    definition_version = d.version;
    definition_hash = d.definition_hash;
    definition_name = d.name;
    source_event_id = o.source_event_id;
    source_candle_id = o.correlation_id;
    series = o.series;
    triggered_at = o.occurred_at;
    evaluated_at = now;
    reasons = reasons;
    facts_used = facts;
    feature_algorithm = o.feature_algorithm;
    source_revision = o.revision;
    source_status = o.status;
    observation = or_zero "" (pl.marshal o);
    publish_status = "pending";
    cursor = 0;
  }

  -- What an evaluation leaves: the definition's state, and an alert if it triggers.
  unfoldable pub conclude :
      PartitionRuntime F
      → Time
      → String
      → Observation F
      → AlertDefinition F
      → Bool × List String × List (FactReference F)
      → Batch F
      → Batch F
  unfolding definition_state_of next_definition_state make_alert
  conclude p now key o d (truth, reasons, facts) b =
      let state_key = definition_state_key d.id key in
      let s = definition_state_of p key state_key b in
      record b {
        definition_states =
            insert state_key (next_definition_state d o truth s) b.definition_states;
        alerts =
            if triggers d o truth s
            then b.alerts ++ make_alert now d o reasons facts ∷ []
            else b.alerts;
        metrics = count_eval b.metrics;
      }

  -- Whether a definition is looked at for this frame.
  unfoldable pub applies : CompiledDefinition F → Observation F → Bool
  unfolding definition_enabled_at accepts_mode
  applies c o =
      not (o.status == "provisional" && ignores_candle c.rule.dependencies)
      && (definition_enabled_at c.definition o.occurred_at
          && accepts_mode c.definition.evaluation_mode o.status)

  unfoldable pub evaluate_definitions :
      PartitionRuntime F
      → Time
      → String
      → Observation F
      → FeatureState F
      → List (CompiledDefinition F)
      → Batch F
      → Option (Batch F)
  unfolding applies conclude evaluate_detailed
  evaluate_definitions p now key o feature [] b = some b
  evaluate_definitions p now key o feature (c ∷ cs) b =
      let skipped = evaluate_definitions p now key o feature cs b in
      if applies c o
      then (evaluate_detailed c.rule o feature >>= λ r.
          evaluate_definitions p now key o feature cs (conclude p now key o c.definition r b))
      else skipped

  -- The series after an accepted frame.
  unfoldable pub advance_series :
      Observation F → FeatureState F → SeriesEvaluationState F → SeriesEvaluationState F
  unfolding advance
  advance_series o feature s =
      let moved = record s {
        active_zones = elim o.active_zones [ [] ↦ s.active_zones | z ∷ zs ↦ z ∷ zs ];
        last_open_time = o.candle.open_time;
        last_revision = o.revision;
        last_status = o.status;
      } in
      if o.status == "confirmed"
      then record moved { confirmed = advance s.confirmed o; intrabar = advance s.confirmed o }
      else record moved { intrabar = advance feature o }

  -- One frame that is neither a reset nor stale.
  unfoldable pub accept_frame :
      Routes F → PartitionRuntime F → Time → Observation F → Batch F → Option (Batch F)
  unfolding evaluate_definitions advance_series with_zones features_for series_state_of
  accept_frame routes p now input b =
      let key = series_key input.series in
      let s = series_state_of p key b in
      let o = with_zones input s in
      let feature = features_for o s in
      evaluate_definitions p now key o feature (definitions_for routes o.series) b >>= λ t.
      some (record t {
        series_states = insert key (advance_series o feature s) t.series_states;
        accepted = t.accepted ++ o ∷ [];
      })
