-- ===== src/Tests/RefinementTests.antt =====
-- The refinement of EvaluateBatch at a concrete engine and batch.
use alerts.Common.{some, List, ℕ, ok, err, Result, or_zero, arith}
use alerts.Common.Dict.{lookup, insert}
use alerts.Model.{Observation, Alert, series_key}
use alerts.Rules.Evaluate.{evaluate_detailed}
use alerts.Rules.Advance.{advance}
use alerts.Store.Memory.{Memory}
use alerts.Engine.State.{Engine}
use alerts.Engine.Run.{EngineError}
use alerts.Engine.Run.Replay.{IsNoOp, evaluate_batch-IsNoOp}
use alerts.Common.{str_beq, ◌≡◌, refl, true, [], ◌∷◌}
use alerts.Common.Int.{pos}
use alerts.Store.Memory.{new_memory}
use alerts.Rules.Kinds.{rule_type}
use alerts.Rules.Validate.{validate_at}
use alerts.Rules.Evaluate.{compile}
use alerts.Engine.State.{empty_partition, new_with_ownership}
use alerts.Engine.Partitions.{owns, partition_of}
use alerts.Engine.Run.{evaluate_batch}
use alerts.Engine.Run.Commits.{read}
use alerts.Engine.Run.Refinement.{Refines, evaluate_batch-Refines}
use alerts.Engine.Routes.{upsert_definition, definitions_for, route, has_id, sort_by_id}
use alerts.Engine.Spec.{spec_run, spec_accepted}
use alerts.Tests.{
  whole_numbers, sample_platform, first, second_frame, sample_repository, sample_engine,
}

owned : owns 0 1 0 ≡ true
unfolding owns
owned = refl

evaluate_batch-Refines_example :
    Refines empty_partition sample_repository new_memory 0 sample_engine
      (spec_accepted sample_engine.by_route 1 (first ∷ second_frame ∷ []) (read empty_partition))
      (spec_run sample_engine.by_route 1 (first ∷ second_frame ∷ []) (read empty_partition))
      (evaluate_batch sample_repository sample_engine new_memory
        (pos 0)
        1
        (first ∷ second_frame ∷ []))
unfolding upsert_definition new_with_ownership compile validate_at rule_type str_beq partition_of
evaluate_batch-Refines_example =
    evaluate_batch-Refines empty_partition sample_repository new_memory 0 sample_engine 1
      (first ∷ second_frame ∷ []) refl owned ((refl, refl), ((refl, refl), tt))

-- The two frames in one batch, and what the call leaves.
abbrev batch : List (Observation ℕ)
batch = first ∷ second_frame ∷ []

abbrev delivered : Engine ℕ × Memory ℕ × Result EngineError (List (Alert ℕ))
delivered =
    or_zero (sample_engine, new_memory, ok [])
      (evaluate_batch sample_repository sample_engine new_memory (pos 0) 1 batch)

abbrev alerts_in : Result EngineError (List (Alert ℕ)) → List (Alert ℕ)
alerts_in (ok alerts) = alerts
alerts_in (err x) = []

taken :
    evaluate_batch sample_repository sample_engine new_memory (pos 0) 1 batch
    ≡ some (delivered.0, delivered.1, ok (alerts_in delivered.2))
unfolding evaluate_batch upsert_definition compile validate_at rule_type str_beq new_with_ownership
    partition_of series_key definitions_for route lookup insert advance evaluate_detailed owns
    has_id sort_by_id
taken = refl

evaluate_batch-IsNoOp_example :
    IsNoOp sample_repository delivered.0 delivered.1
      (evaluate_batch sample_repository delivered.0 delivered.1 (pos 0) 2 batch)
unfolding evaluate_batch upsert_definition compile validate_at rule_type str_beq new_with_ownership
    partition_of series_key definitions_for route lookup insert advance evaluate_detailed owns
    has_id sort_by_id
evaluate_batch-IsNoOp_example =
    evaluate_batch-IsNoOp sample_repository empty_partition new_memory delivered.1 delivered.1 0
      sample_engine delivered.0 1 2 batch (alerts_in delivered.2) refl owned
      ((refl, refl), ((refl, refl), tt)) (ground arith, (ground arith, tt)) taken refl
      ((refl, refl), ((refl, refl), tt))
