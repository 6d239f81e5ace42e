-- ===== src/Engine/Spec.antt =====
-- EvaluateBatch of internal/runtime/engine.go without its batches: frames that are no resets, one after
-- another, on the states of a partition read as functions of their keys.
pub mod Refinement
pub mod Steps
pub mod Replay
use alerts.Common.{
  String, Bool, true, false, Option, none, some, List, [], ◌∷◌, ◌++◌, ◌==◌, string_eq,
  if◌then◌else◌, or_zero, ◌>>=◌, ◌≡◌, refl,
}
use alerts.Common.Dict.{lookup}
use alerts.Model.{
  Float64, Platform, Time, FactReference, Observation, AlertDefinition, Alert, FeatureState,
  SeriesEvaluationState, DefinitionEvaluationState, series_key, empty_series_state,
  empty_definition_state,
}
use alerts.Rules.Evaluate.{evaluate_detailed}
use alerts.Store.{definition_state_key}
use alerts.Engine.Policy.{stale, triggers, next_definition_state}
use alerts.Engine.State.{CompiledDefinition, PartitionRuntime}
use alerts.Engine.Routes.{Routes, definitions_for}
use alerts.Engine.Batch.{Batch, applies, make_alert, with_zones, features_for, advance_series}

-- The states of a partition by series key and by definition state key; a missing one is the zero value.
pub record View (F : Type 0) : Type 0 where
  pub series : String → SeriesEvaluationState F
  pub definitions : String → DefinitionEvaluationState

-- A function changed at one key.
abbrev pub update {ℓ} : {A : Type ℓ} → String → A → (String → A) → String → A
update key x f k = if key == k then x else f k

-- What the partition and the maps of a batch hold together.
abbrev pub view_of : {F : Type 0} → PartitionRuntime F → Batch F → View F
view_of p b = record {
  series = λ k. or_zero (or_zero empty_series_state (lookup k p.series)) (lookup k b.series_states);
  definitions = λ k.
      or_zero (or_zero empty_definition_state (lookup k p.definitions))
        (lookup k b.definition_states);
}

-- A view and the alerts that were made on the way to it, or a panic.
abbrev pub Outcome : Type 0 → Type 0
Outcome F = Option (View F × List (Alert F))

-- Alerts that come before those of an outcome.
abbrev pub prepend : {F : Type 0} → List (Alert F) → Outcome F → Outcome F
prepend alerts none = none
prepend alerts (some (v, more)) = some (v, alerts ++ more)

module _ {F : Type 0} ⦃fl : Float64 F⦄ ⦃pl : Platform F⦄ where
  -- What one definition makes of a result.
  abbrev pub concluded : String → Observation F → AlertDefinition F → Bool → View F → View F
  concluded key o d truth v =
      let state_key = definition_state_key d.id key in
      record v {
        definitions =
            update state_key (next_definition_state d o truth (v.definitions state_key))
              v.definitions;
      }

  abbrev pub alerts_of :
      Time
      → String
      → Observation F
      → AlertDefinition F
      → Bool × List String × List (FactReference F)
      → View F
      → List (Alert F)
  alerts_of now key o d (truth, reasons, facts) v =
      if triggers d o truth (v.definitions (definition_state_key d.id key))
      then make_alert now d o reasons facts ∷ []
      else []

  unfoldable pub spec_definitions :
      Time
      → String
      → Observation F
      → FeatureState F
      → List (CompiledDefinition F)
      → View F
      → Outcome F
  unfolding evaluate_detailed
  spec_definitions now key o feature [] v = some (v, [])
  spec_definitions now key o feature (c ∷ cs) v =
      let skipped = spec_definitions now key o feature cs v in
      if applies c o
      then (evaluate_detailed c.rule o feature >>= λ r.
          prepend (alerts_of now key o c.definition r v)
            (spec_definitions now key o feature cs (concluded key o c.definition r.0 v)))
      else skipped

  -- The last step of a frame: its series moves on.
  abbrev pub move_series : String → SeriesEvaluationState F → Outcome F → Outcome F
  move_series key s none = none
  move_series key s (some (v, alerts)) = some (record v { series = update key s v.series }, alerts)

  -- One frame.
  unfoldable pub spec_step : Routes F → Time → Observation F → View F → Outcome F
  unfolding spec_definitions
  spec_step routes now input v =
      let key = series_key input.series in
      let s = v.series key in
      let o = with_zones input s in
      if stale input s
      then some (v, [])
      else move_series key (advance_series o (features_for o s) s)
          (spec_definitions now key o (features_for o s) (definitions_for routes o.series) v)

  -- Frames one after another.
  unfoldable pub spec_run : Routes F → Time → List (Observation F) → View F → Outcome F
  unfolding spec_step
  spec_run routes now [] v = some (v, [])
  spec_run routes now (o ∷ os) v =
      spec_step routes now o v >>= λ (w, alerts). prepend alerts (spec_run routes now os w)

  -- The frames of a batch that are not stale, as they are evaluated.
  unfoldable pub spec_accepted :
      Routes F → Time → List (Observation F) → View F → List (Observation F)
  unfolding spec_step
  spec_accepted routes now [] v = []
  spec_accepted routes now (o ∷ os) v =
      let s = v.series (series_key o.series) in
      (if stale o s then [] else with_zones o s ∷ []) ++ (elim (spec_step routes now o v) [
        | none ↦ []
        | some (w, alerts) ↦ spec_accepted routes now os w
      ])
