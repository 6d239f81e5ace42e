-- ===== src/Tests/StoreTests.antt =====
-- The theorems on the repository in memory, at concrete batches and requests.
use alerts.Common.{
  ℕ, ◌≡◌, refl, ◌≢◌, String, true, false, none, some, List, [], ◌∷◌, arith, take, drop, nat_eq,
  string_eq, str_beq, str_beq_iff, or_zero,
}
use alerts.Common.Int.{pos}
use alerts.Model.{Alert, empty_evaluation_state}
use alerts.Store.{RuntimeBatch}
use alerts.Store.Apply.{Applied, apply}
use alerts.Store.Apply.Truth.{apply_keeps_truth, apply_once}
use alerts.Store.Memory.{Memory, new_memory}
use alerts.Store.Memory.Outbox.{commit_runtime_batch, list_alerts}
use alerts.Store.Memory.Outbox.Commit.{commit_all, commit_again}
use alerts.Store.Memory.Outbox.Pages.{start, committed, list_alerts_page}
use alerts.Store.Memory.Leases.{acquire_partitions}
use alerts.Store.Memory.Leases.Exclusion.{acquire_partitions_exclusive}
use alerts.Rules.Validate.{validate_at}
use alerts.Rules.Kinds.{rule_type}
use alerts.Tests.{whole_numbers, sample_platform, bitcoin, first, red_alert}

abbrev alert_of : String → Alert ℕ
alert_of id = record {
  schema = "";
  id = id;
  definition_id = "red";
  definition_version = pos 1;
  definition_hash = "hash";
  definition_name = "red candle";
  source_event_id = "event-1";
  source_candle_id = "";
  series = bitcoin;
  triggered_at = 1;
  evaluated_at = 1;
  reasons = [];
  facts_used = [];
  feature_algorithm = record { name = ""; version = ""; config_hash = "" };
  source_revision = 1;
  source_status = "confirmed";
  observation = "{}";
  publish_status = "pending";
  cursor = 0;
}

abbrev batch_of : List (Alert ℕ) → RuntimeBatch ℕ
batch_of alerts = record {
  partition_id = 0;
  observations = first ∷ [];
  series_states = [];
  definition_states = [];
  reset_series_keys = [];
  alerts = alerts;
}

abbrev first_batch : RuntimeBatch ℕ
first_batch = batch_of (alert_of "a" ∷ alert_of "b" ∷ [])

abbrev next_batch : RuntimeBatch ℕ
next_batch = batch_of (alert_of "c" ∷ [])

commit_again_example :
    let m : Memory ℕ = new_memory in
    ((commit_runtime_batch first_batch
        (commit_all (next_batch ∷ []) (commit_runtime_batch first_batch m).0)).1
      ≡ [])
    × ((commit_runtime_batch first_batch
          (commit_all (next_batch ∷ []) (commit_runtime_batch first_batch m).0)).0.alerts
        ≡ (commit_all (next_batch ∷ []) (commit_runtime_batch first_batch m).0).alerts)
commit_again_example = commit_again first_batch (next_batch ∷ []) new_memory

list_alerts_page_example :
    list_alerts 1 2 (commit_runtime_batch first_batch new_memory).0
    ≡ take 2 (drop 1 (commit_runtime_batch first_batch new_memory).0.alerts)
list_alerts_page_example = list_alerts_page (committed start first_batch) 1 2 (omega arith)

abbrev held : Memory ℕ
held = (acquire_partitions "worker-0" (0 ∷ 1 ∷ []) new_memory).0

granted : acquire_partitions "worker-0" (0 ∷ 1 ∷ []) new_memory ≡ (held, true)
unfolding acquire_partitions str_beq
granted = refl

differs : {a b : String} → str_beq a b ≡ false → a ≢ b
differs {a} {b} h e = clash (str_beq_iff a b).1 e h
  where
    clash : (a ≡ b → str_beq a b ≡ true) → a ≡ b → str_beq a b ≡ false → ⊥
    clash f e k = cc (f e)

owner_differs : str_beq "worker-0" "" ≡ false
unfolding str_beq
owner_differs = refl

owners_differ : str_beq "worker-0" "worker-1" ≡ false
unfolding str_beq
owners_differ = refl

acquire_partitions_exclusive_example :
    acquire_partitions "worker-1" (1 ∷ 2 ∷ []) held ≡ (held, false)
acquire_partitions_exclusive_example =
    acquire_partitions_exclusive new_memory held "worker-0" "worker-1" (0 ∷ 1 ∷ []) (1 ∷ 2 ∷ []) 1
      granted (differs owner_differs) (differs owners_differ) refl refl

abbrev applied : Applied ℕ
applied =
    or_zero (empty_evaluation_state, none, false) (apply 1 red_alert first empty_evaluation_state)

applies : apply 1 red_alert first empty_evaluation_state ≡ some (applied.0, applied.1, true)
unfolding apply validate_at rule_type str_beq
applies = refl

apply_keeps_truth_example : applied.0.last_truth ≡ false
apply_keeps_truth_example = apply_keeps_truth 1 red_alert first empty_evaluation_state applies

apply_once_example : apply 2 red_alert first applied.0 ≡ some (applied.0, none, false)
apply_once_example = apply_once 1 red_alert first empty_evaluation_state applies (omega arith) 2
