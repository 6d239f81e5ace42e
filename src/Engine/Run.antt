-- ===== src/Engine/Run.antt =====
-- EvaluateBatch and Initialize of internal/runtime/engine.go. A panic is none.
pub mod Safety
pub mod Atomic
pub mod Reachable
pub mod Commits
pub mod Accepted
pub mod Refinement
pub mod Replay
use alerts.Common.{
  ℕ, suc, zero, String, Bool, true, false, not, Option, none, some, List, [], ◌∷◌, ◌++◌, length,
  ltb, get_elem?, any, ◌==◌, nat_eq, string_eq, if◌then◌else◌, ◌>>=◌, Result, ok, err,
}
use alerts.Common.Int.{ℤ, pos, negsuc}
use alerts.Common.Dict.{Dict, lookup, insert, insert_all, delete_if}
use alerts.Common.Text.{str_ltb}
use alerts.Model.{
  Float64, Platform, Time, series_key, Observation, Alert, SeriesEvaluationState,
  DefinitionEvaluationState, AlertDefinition,
}
use alerts.Rules.Validate.{RuleError}
use alerts.Store.{StoreError, Repository, RuntimeBatch, RuntimeSnapshot}
use alerts.Engine.State.{PartitionRuntime, Metrics, Engine}
use alerts.Engine.Partitions.{
  partition_of, partition_for_key, definition_series_key, owns, owned_partitions,
}
use alerts.Engine.Routes.{Routes, replace_definitions}
use alerts.Engine.Batch.{Batch, empty_batch}
use alerts.Engine.Reset.{step, of_series}

pub data EngineError : Type 0 where
  out_of_range not_owned : ℤ → EngineError
  wrong_partition : String → EngineError
  store_failed : StoreError → EngineError
  not_compiled : String → RuleError → EngineError

-- xs[i] = x
unfoldable pub set_elem {ℓ} : {A : Type ℓ} → List A → ℕ → A → List A
set_elem [] i x = []
set_elem (y ∷ ys) zero x = x ∷ ys
set_elem (y ∷ ys) (suc i) x = y ∷ set_elem ys i x

insert_string : String → List String → List String
insert_string k [] = k ∷ []
insert_string k (j ∷ js) = if str_ltb j k then j ∷ insert_string k js else k ∷ j ∷ js

-- sort.Strings
unfoldable pub sort_strings : List String → List String
unfolding insert_string
sort_strings [] = []
sort_strings (k ∷ ks) = insert_string k (sort_strings ks)

abbrev pub runtime_batch : {F : Type 0} → ℕ → Batch F → RuntimeBatch F
runtime_batch id b = record {
  partition_id = id;
  observations = b.accepted;
  series_states = b.series_states;
  definition_states = b.definition_states;
  reset_series_keys = sort_strings b.reset_series;
  alerts = b.alerts;
}

-- for _, seriesKey := range resetKeys { delete the states of the series }
unfoldable pub forget_series :
    List String → Dict String DefinitionEvaluationState → Dict String DefinitionEvaluationState
unfolding delete_if definition_series_key
forget_series [] d = d
forget_series (key ∷ keys) d = forget_series keys (delete_if (of_series key) d)

-- The partition after a commit.
unfoldable pub publish_batch : {F : Type 0} → Batch F → PartitionRuntime F → PartitionRuntime F
unfolding forget_series insert_all sort_strings
publish_batch b p = record {
  series = insert_all b.series_states p.series;
  definitions =
      insert_all b.definition_states (forget_series (sort_strings b.reset_series) p.definitions);
}

module _ {F : Type 0} ⦃fl : Float64 F⦄ ⦃pl : Platform F⦄ where
  -- The loop over the observations: the error that ended it, if one did.
  unfoldable pub run_steps :
      ℕ
      → ℕ
      → Routes F
      → PartitionRuntime F
      → Time
      → List (Observation F)
      → Batch F
      → Option (Batch F × Option EngineError)
  unfolding step
  run_steps count id routes p now [] b = some (b, none)
  run_steps count id routes p now (o ∷ os) b =
      if partition_of count o.series == id
      then (step routes p now o b >>= λ t. run_steps count id routes p now os t)
      else some (b, some (wrong_partition (series_key o.series)))

  module _ {S : Type 0} (repo : Repository F S) where
    commit_batch :
        Engine F
        → S
        → ℕ
        → PartitionRuntime F
        → Batch F
        → Engine F × S × Result EngineError (List (Alert F))
    commit_batch e s id p b =
        let (s', outcome) = repo.commit_runtime_batch s (runtime_batch id b) in
        elim outcome [
          | err x ↦ (e, s', err (store_failed x))
          | ok committed ↦ (
            record e { partitions = set_elem e.partitions id (publish_batch b p) },
            s',
            ok committed,
          )
        ]

    -- What follows the loop; the counters are kept whatever happens.
    unfoldable pub finish :
        Engine F
        → S
        → ℕ
        → PartitionRuntime F
        → Batch F × Option EngineError
        → Engine F × S × Result EngineError (List (Alert F))
    unfolding commit_batch set_elem publish_batch
    finish e s id p (b, some x) = (record e { metrics = b.metrics }, s, err x)
    finish e s id p (b, none) =
        let counted = record e { metrics = b.metrics } in
        elim b.accepted [ [] ↦ (counted, s, ok []) | o ∷ os ↦ commit_batch counted s id p b ]

    evaluate_in :
        Engine F
        → S
        → ℕ
        → Time
        → List (Observation F)
        → Option (PartitionRuntime F)
        → Option (Engine F × S × Result EngineError (List (Alert F)))
    unfolding run_steps finish
    evaluate_in e s id now os none = some (e, s, err (out_of_range (pos id)))
    evaluate_in e s id now os (some p) =
        if owns e.worker_index e.worker_count id
        then (run_steps (length e.partitions) id e.by_route p now os (empty_batch e.metrics)
            >>= λ r. some (finish e s id p r))
        else some (e, s, err (not_owned (pos id)))

    unfoldable pub evaluate_batch :
        Engine F
        → S
        → ℤ
        → Time
        → List (Observation F)
        → Option (Engine F × S × Result EngineError (List (Alert F)))
    unfolding evaluate_in
    evaluate_batch e s (negsuc n) now os = some (e, s, err (out_of_range (negsuc n)))
    evaluate_batch e s (pos id) now os = evaluate_in e s id now os (get_elem? e.partitions id)

  put_series : PartitionRuntime F → String → SeriesEvaluationState F → PartitionRuntime F
  put_series p key s = record p { series = insert key s p.series }

  put_definition : PartitionRuntime F → String → DefinitionEvaluationState → PartitionRuntime F
  put_definition p key s = record p { definitions = insert key s p.definitions }

  -- A write to the partition of a key, if the worker owns it.
  place : String → (PartitionRuntime F → PartitionRuntime F) → Engine F → Engine F
  unfolding set_elem
  place key write e =
      let id = partition_for_key (length e.partitions) key in
      if owns e.worker_index e.worker_count id
      then (elim (get_elem? e.partitions id) [
        | none ↦ e
        | some p ↦ record e { partitions = set_elem e.partitions id (write p) }
      ])
      else e

  load_series : Dict String (SeriesEvaluationState F) → Engine F → Engine F
  load_series [] e = e
  load_series ((key, s) ∷ d) e = load_series d (place key (λ p. put_series p key s) e)

  load_definitions : Dict String DefinitionEvaluationState → Engine F → Engine F
  load_definitions [] e = e
  load_definitions ((key, s) ∷ d) e =
      load_definitions d (place (definition_series_key key) (λ p. put_definition p key s) e)

  load_snapshot :
      Engine F → Result StoreError (RuntimeSnapshot F) → Engine F × Result EngineError (Unit {0})
  unfolding load_series load_definitions place put_series put_definition
  load_snapshot e (err x) = (e, err (store_failed x))
  load_snapshot e (ok snapshot) =
      (load_definitions snapshot.definitions (load_series snapshot.series e), ok tt)

  module _ {S : Type 0} (repo : Repository F S) where
    -- Initialize, at the clock reading now.
    unfoldable pub initialize : Engine F → S → Time → Engine F × Result EngineError (Unit {0})
    unfolding load_snapshot replace_definitions owned_partitions
    initialize e s now = elim (repo.list_definitions s now) [
      | err x ↦ (e, err (store_failed x))
      | ok ds ↦
          let (e', outcome) = replace_definitions ds now e in
          elim outcome [
            | err (id, x) ↦ (e', err (not_compiled id x))
            | ok _ ↦ load_snapshot e' (repo.load_runtime_states s (owned_partitions e'))
          ]
    ]
