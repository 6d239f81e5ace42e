-- ===== src/Store/Memory.antt =====
-- internal/store/memory.go: the repository that keeps everything in memory.
-- A map is iterated in the order of its association list; Go's order is not fixed.
pub mod Observe
pub mod Outbox
pub mod Leases
use alerts.Common.{
  ℕ, ◌+◌, String, ◌<>◌, Bool, true, false, not, ◌&&◌, ◌||◌, Option, none, some, List, [], ◌∷◌, ◌++◌,
  length, any, keep, ltb, ◌==◌, nat_eq, string_eq, if◌then◌else◌, or_zero, ◌>>=◌, Result, ok, err,
}
use alerts.Common.Dict.{Dict, lookup, insert, insert_all, delete_if, values}
use alerts.Model.{
  Float64, Platform, Time, Series, series_key, Observation, AlertDefinition, Alert,
  SeriesEvaluationState, DefinitionEvaluationState, EvaluationState, empty_evaluation_state,
}
use alerts.Engine.Partitions.{definition_series_key}
use alerts.Engine.Policy.{accepts_mode}
use alerts.Store.{StoreError, not_found, failure, RuntimeSnapshot, RuntimeBatch}
use alerts.Store.Apply.{Applied, apply}

pub record Memory (F : Type 0) : Type 0 where
  pub definitions : Dict String (AlertDefinition F)
  pub by_hash : Dict String String
  pub archived : Dict String Bool
  pub states : Dict String (EvaluationState F)
  pub series_runtime : Dict String (SeriesEvaluationState F)
  pub definition_runtime : Dict String DefinitionEvaluationState
  pub inbox : List String
  pub alerts : List (Alert F)
  pub leases : Dict ℕ String

abbrev pub new_memory : {F : Type 0} → Memory F
new_memory = record {
  definitions = [];
  by_hash = [];
  archived = [];
  states = [];
  series_runtime = [];
  definition_runtime = [];
  inbox = [];
  alerts = [];
  leases = [];
}

-- m.inbox[id] = struct{}{}
abbrev pub receive : String → List String → List String
receive id inbox = if any (λ x. x == id) inbox then inbox else id ∷ inbox

module _ {F : Type 0} where
  abbrev pub is_archived : String → Memory F → Bool
  is_archived id m = or_zero false (lookup id m.archived)

  unfoldable pub known_definition :
      AlertDefinition F
      → String
      → Option (AlertDefinition F)
      → Memory F
      → Memory F × Option (AlertDefinition F)
  known_definition d id old m =
      if is_archived id m
      then (
        record m {
          definitions = insert id d m.definitions;
          archived = delete_if (λ k. k == id) m.archived;
        },
        some d,
      )
      else (m, old)

  -- CreateDefinition: the stored definition, none for the zero one, and whether it is new.
  unfoldable pub create_definition :
      AlertDefinition F → Memory F → Memory F × Option (AlertDefinition F) × Bool
  unfolding known_definition
  create_definition d m = elim (lookup d.definition_hash m.by_hash) [
    | some id ↦
        let (t, stored) = known_definition d id (lookup id m.definitions) m in (t, stored, false)
    | none ↦ (
      record m {
        definitions = insert d.id d m.definitions;
        by_hash = insert d.definition_hash d.id m.by_hash;
      },
      some d,
      true,
    )
  ]

  by_creation : AlertDefinition F → List (AlertDefinition F) → List (AlertDefinition F)
  by_creation d [] = d ∷ []
  by_creation d (x ∷ xs) =
      let rest = by_creation d xs in if ltb x.created_at d.created_at then x ∷ rest else d ∷ x ∷ xs

  sort_by_creation : List (AlertDefinition F) → List (AlertDefinition F)
  unfolding by_creation
  sort_by_creation [] = []
  sort_by_creation (d ∷ ds) = by_creation d (sort_by_creation ds)

  abbrev pub is_listed : Time → Memory F → AlertDefinition F → Bool
  is_listed now m d = not (is_archived d.id m && not (ltb now d.effective_at))

  -- ListDefinitions, at the clock reading now: archived definitions are left out once that has taken effect.
  unfoldable pub list_definitions : Time → Memory F → List (AlertDefinition F)
  unfolding sort_by_creation keep values
  list_definitions now m = sort_by_creation (keep (is_listed now m) (values m.definitions))

  unfoldable pub set_enabled :
      String → Bool → Time → Time → Memory F → Memory F × Result StoreError (AlertDefinition F)
  set_enabled id enabled effective now m = elim (lookup id m.definitions) [
    | none ↦ (m, err not_found)
    | some d ↦
        if is_archived id m
        then (m, err not_found)
        else (let t = record d { enabled = enabled; updated_at = now; effective_at = effective } in
            (record m { definitions = insert id t m.definitions }, ok t))
  ]

  unfoldable pub archive_definition :
      String → Time → Memory F → Memory F × Result StoreError (Unit {0})
  archive_definition id effective m = elim (lookup id m.definitions) [
    | none ↦ (m, err not_found)
    | some d ↦ (
      record m {
        definitions =
            insert id (record d { enabled = false; effective_at = effective }) m.definitions;
        archived = insert id true m.archived;
      },
      ok tt,
    )
  ]
