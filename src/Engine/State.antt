-- ===== src/Engine/State.antt =====
-- The state of Engine in internal/runtime/engine.go.
use alerts.Common.{
  ℕ, zero, suc, ◌+◌, ◌^◌, ◌%◌, String, Bool, true, not, ◌&&◌, List, [], ◌∷◌, ltb, nat_eq,
  if◌then◌else◌,
}
use alerts.Common.Dict.{Dict}
use alerts.Common.Int.{ℤ, pos, ltb_ℤ, sub_time}
use alerts.Model.{AlertDefinition, SeriesEvaluationState, DefinitionEvaluationState}
use alerts.Rules.Evaluate.{Compiled}

pub record CompiledDefinition (F : Type 0) : Type 0 where
  pub definition : AlertDefinition F
  pub rule : Compiled F

pub record PartitionRuntime (F : Type 0) : Type 0 where
  pub series : Dict String (SeriesEvaluationState F)
  pub definitions : Dict String DefinitionEvaluationState

abbrev pub empty_partition : {F : Type 0} → PartitionRuntime F
empty_partition = record { series = []; definitions = [] }

-- The atomic counters, uint64.
pub record Metrics : Type 0 where
  pub stale_events : ℕ
  pub reset_events : ℕ
  pub rule_evals : ℕ

-- counter.Add(1)
abbrev pub count_up : ℕ → ℕ
count_up n = (n + 1) % 2 ^ 64

pub record Engine (F : Type 0) : Type 0 where
  pub partitions : List (PartitionRuntime F)
  pub by_route : Dict String (List (CompiledDefinition F))
  pub refreshed_at : ℕ
  pub worker_index : ℕ
  pub worker_count : ℕ
  pub metrics : Metrics

empty_partitions : {F : Type 0} → ℕ → List (PartitionRuntime F)
empty_partitions zero = []
empty_partitions (suc n) = empty_partition ∷ empty_partitions n

abbrev at_least_one : ℕ → ℕ
at_least_one n = if ltb n 1 then 1 else n

unfoldable pub new_with_ownership : {F : Type 0} → ℕ → ℕ → ℕ → Engine F
unfolding empty_partitions
new_with_ownership partition_count worker_index worker_count = record {
  partitions = empty_partitions (at_least_one partition_count);
  by_route = [];
  refreshed_at = 0;
  worker_index = worker_index;
  worker_count = at_least_one worker_count;
  metrics = record { stale_events = 0; reset_events = 0; rule_evals = 0 };
}

-- DefinitionsFresh, at the clock reading now: with a bound the cache has been filled and is not older.
unfoldable pub definitions_fresh : {F : Type 0} → Engine F → ℤ → ℕ → Bool
definitions_fresh e max_age now =
    if not (ltb_ℤ (pos 0) max_age)
    then true
    else ltb 0 e.refreshed_at && not (ltb_ℤ max_age (sub_time now e.refreshed_at))
