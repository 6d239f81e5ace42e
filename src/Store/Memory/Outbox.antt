-- ===== src/Store/Memory/Outbox.antt =====
-- CommitRuntimeBatch of internal/store/memory.go, and the calls that read and publish the alerts.
pub mod Commit
pub mod Cursors
pub mod Pages
pub mod Pending
use alerts.Common.{
  ℕ, ◌+◌, String, Bool, List, [], ◌∷◌, ◌++◌, length, any, ltb, ◌==◌, nat_eq, string_eq,
  if◌then◌else◌, Result, ok, err,
}
use alerts.Common.Dict.{Dict, insert_all, delete_if}
use alerts.Model.{Observation, Alert, DefinitionEvaluationState}
use alerts.Engine.Partitions.{definition_series_key}
use alerts.Store.{StoreError, not_found, RuntimeSnapshot, RuntimeBatch}
use alerts.Store.Memory.{Memory, receive}

forget_all :
    List String → Dict String DefinitionEvaluationState → Dict String DefinitionEvaluationState
unfolding delete_if definition_series_key
forget_all [] d = d
forget_all (key ∷ keys) d = forget_all keys (delete_if (λ k. definition_series_key k == key) d)

module _ {F : Type 0} where
  receive_all : List (Observation F) → List String → List String
  receive_all [] inbox = inbox
  receive_all (o ∷ os) inbox = receive_all os (receive o.source_event_id inbox)

  -- Whether an alert with this id is stored.
  abbrev pub has_id : String → List (Alert F) → Bool
  has_id id alerts = any (λ a. a.id == id) alerts

  -- The loop over the alerts of a batch: those whose id is new get the next cursor.
  unfoldable pub add_alerts :
      List (Alert F) → List (Alert F) → List (Alert F) → List (Alert F) × List (Alert F)
  add_alerts [] stored created = (stored, created)
  add_alerts (a ∷ others) stored created =
      let b = record a { cursor = length stored + 1 } in
      let added = add_alerts others (stored ++ b ∷ []) (created ++ b ∷ []) in
      let rest = add_alerts others stored created in if has_id a.id stored then rest else added

  unfoldable pub commit_runtime_batch : RuntimeBatch F → Memory F → Memory F × List (Alert F)
  unfolding add_alerts receive_all forget_all insert_all
  commit_runtime_batch b m =
      let t = add_alerts b.alerts m.alerts [] in
      (
        record m {
          inbox = receive_all b.observations m.inbox;
          series_runtime = insert_all b.series_states m.series_runtime;
          definition_runtime =
              insert_all b.definition_states (forget_all b.reset_series_keys m.definition_runtime);
          alerts = t.0;
        },
        t.1,
      )

  unfoldable pub load_runtime_states : List ℕ → Memory F → RuntimeSnapshot F
  load_runtime_states partitions m = record {
    series = m.series_runtime;
    definitions = m.definition_runtime;
  }

  -- The loops that collect the alerts that pass a test until there are as many as the limit.
  unfoldable pub collect : (Alert F → Bool) → ℕ → List (Alert F) → List (Alert F) → List (Alert F)
  collect p limit [] out = out
  collect p limit (a ∷ others) out =
      let rest = collect p limit others out in
      let more = collect p limit others (out ++ a ∷ []) in
      if p a then (if length out + 1 == limit then out ++ a ∷ [] else more) else rest

  unfoldable pub list_alerts : ℕ → ℕ → Memory F → List (Alert F)
  unfolding collect
  list_alerts after limit m = collect (λ a. ltb after a.cursor) limit m.alerts []

  unfoldable pub claim_pending : ℕ → Memory F → List (Alert F)
  unfolding collect
  claim_pending limit m = collect (λ a. a.publish_status == "pending") limit m.alerts []

  unfoldable pub publish_first : String → List (Alert F) → List (Alert F)
  publish_first id [] = []
  publish_first id (a ∷ others) =
      let rest = publish_first id others in
      if a.id == id then record a { publish_status = "published" } ∷ others else a ∷ rest

  unfoldable pub mark_published : String → Memory F → Memory F × Result StoreError (Unit {0})
  unfolding publish_first
  mark_published id m =
      if has_id id m.alerts
      then (record m { alerts = publish_first id m.alerts }, ok tt)
      else (m, err not_found)
