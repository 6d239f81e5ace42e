-- ===== src/Store.antt =====
-- internal/store/store.go: what the runtime and the service ask of a repository.
pub mod Apply
pub mod Memory
use alerts.Common.{ℕ, String, ◌<>◌, Bool, true, false, List, Result}
use alerts.Common.Dict.{Dict}
use alerts.Model.{
  Time, Observation, AlertDefinition, Alert, SeriesEvaluationState, DefinitionEvaluationState,
}

-- ErrNotFound, or another failure of the repository.
pub data StoreError : Type 0 where
  not_found : StoreError
  failure : String → StoreError

abbrev pub is_not_found : StoreError → Bool
is_not_found not_found = true
is_not_found (failure _) = false

pub record RuntimeSnapshot (F : Type 0) : Type 0 where
  pub series : Dict String (SeriesEvaluationState F)
  pub definitions : Dict String DefinitionEvaluationState

pub record RuntimeBatch (F : Type 0) : Type 0 where
  pub partition_id : ℕ
  pub observations : List (Observation F)
  pub series_states : Dict String (SeriesEvaluationState F)
  pub definition_states : Dict String DefinitionEvaluationState
  pub reset_series_keys : List String
  pub alerts : List (Alert F)

unfoldable pub definition_state_key : String → String → String
definition_state_key definition_id series_key = definition_id <> "|" <> series_key

-- The operations of Repository over a state S. A call that reads the clock takes its reading; the lease,
-- retention and statistics calls are not used by what is modelled.
pub record Repository (F S : Type 0) : Type 0 where
  pub create_definition : S → AlertDefinition F → S × Result StoreError (AlertDefinition F × Bool)
  pub list_definitions : S → Time → Result StoreError (List (AlertDefinition F))
  pub set_enabled : S → String → Bool → Time → Time → S × Result StoreError (AlertDefinition F)
  pub archive_definition : S → String → Time → S × Result StoreError (Unit {0})
  pub load_runtime_states : S → List ℕ → Result StoreError (RuntimeSnapshot F)
  pub commit_runtime_batch : S → RuntimeBatch F → S × Result StoreError (List (Alert F))
  pub list_alerts : S → ℕ → ℕ → Result StoreError (List (Alert F))
  pub claim_pending : S → ℕ → S × Result StoreError (List (Alert F))
  pub mark_published : S → String → S × Result StoreError (Unit {0})
  pub mark_publish_failed : S → String → String → S × Result StoreError (Unit {0})
