-- ===== src/Engine/Run/Refinement.antt =====
-- EvaluateBatch on a batch without resets, its commit included.
use mathlib.Core.Path.{subst}
use alerts.Common.{
  ℕ, length, get_elem?, true, Option, none, some, List, [], ◌∷◌, ◌>>=◌, or_zero, nat_eq, string_eq,
  Result, ok, err, ◌≡◌, refl, sym, ap, ◌∙◌, All,
}
use alerts.Common.Int.{pos}
use alerts.Common.Dict.{lookup}
use alerts.Model.{
  Float64, Platform, Time, Observation, Alert, empty_series_state, empty_definition_state,
}
use alerts.Store.{StoreError, Repository, RuntimeBatch}
use alerts.Engine.State.{PartitionRuntime, Engine, Metrics}
use alerts.Engine.Partitions.{owns}
use alerts.Engine.Batch.{Batch, empty_batch}
use alerts.Engine.Run.{
  EngineError, store_failed, set_elem, sort_strings, publish_batch, runtime_batch, run_steps,
  finish, commit_batch, evaluate_in, evaluate_batch,
}
use alerts.Engine.Spec.{View, view_of, Outcome, spec_run, spec_accepted}
use alerts.Engine.Spec.Refinement.{IsPlain}
use alerts.Engine.Spec.Steps.{IsFrameOf, RunFollows, run_steps-RunFollows}
use alerts.Engine.Run.Accepted.{run_steps-accepted}
use alerts.Engine.Run.Commits.{run_steps-IsQuiet, publish_batch-view, get_elem?-set_elem, read}

module _ {F : Type 0} (p : PartitionRuntime F) where
  -- The states of a committed batch, written over those of the partition.
  abbrev pub written : RuntimeBatch F → View F
  written batch = record {
    series = λ k.
        or_zero (or_zero empty_series_state (lookup k p.series)) (lookup k batch.series_states);
    definitions = λ k.
        or_zero (or_zero empty_definition_state (lookup k p.definitions))
          (lookup k batch.definition_states);
  }

  -- What EvaluateBatch commits for the frames, view and alerts of the specification.
  abbrev pub IsCommitOf :
      ℕ → List (Observation F) → View F → List (Alert F) → RuntimeBatch F → Type 0
  IsCommitOf id taken v made batch =
      (batch.partition_id ≡ id)
      × (batch.observations ≡ taken)
      × (written batch ≡ v)
      × (batch.alerts ≡ made)
      × (batch.reset_series_keys ≡ [])

  -- What a call of EvaluateBatch on a partition of an engine owes to the specification. It panics as the
  -- specification does. Otherwise it leaves all of the engine but its counters and the partition, and either the
  -- specification takes no frame, and then the partition and the store are kept; or a batch with the frames,
  -- states and alerts of the specification was committed, and the call returns the store's answer, with the
  -- partition as the specification says; or that commit failed, and the partition is kept.
  module _ {S : Type 0} (repo : Repository F S) (s : S) (id : ℕ) (e : Engine F)
      (taken : List (Observation F)) where
    pub data Refines
        : Outcome F → Option (Engine F × S × Result EngineError (List (Alert F))) → Type 0 where
      panicked : Refines none none
      idle :
          {v : View F} (m : Metrics)
          → taken ≡ []
          → read p ≡ v
          → Refines (some (v, [])) (some (record e { metrics = m }, s, ok []))
      stored :
          {v : View F} {made alerts : List (Alert F)} {s' : S} (m : Metrics)
          (q : PartitionRuntime F) (batch : RuntimeBatch F)
          → get_elem? (set_elem e.partitions id q) id ≡ some q
          → read q ≡ v
          → IsCommitOf id taken v made batch
          → repo.commit_runtime_batch s batch ≡ (s', ok alerts)
          → Refines (some (v, made)) (
              some
                (record e { metrics = m; partitions = set_elem e.partitions id q }, s', ok alerts))
      refused :
          {v : View F} {made : List (Alert F)} {s' : S} {x : StoreError} (m : Metrics)
          (batch : RuntimeBatch F)
          → IsCommitOf id taken v made batch
          → repo.commit_runtime_batch s batch ≡ (s', err x)
          → Refines (some (v, made)) (some (record e { metrics = m }, s', err (store_failed x)))

    finish-Refines :
        ⦃fl : Float64 F⦄ ⦃pl : Platform F⦄ (b : Batch F) {v : View F} {made : List (Alert F)}
        → get_elem? e.partitions id ≡ some p
        → IsPlain p b
        → view_of p b ≡ v
        → b.alerts ≡ made
        → b.accepted ≡ taken
        → (b.accepted ≡ [] → (read p ≡ v) × (made ≡ []))
        → Refines (some (v, made)) (some (finish repo e s id p (b, none)))
    unfolding finish commit_batch
    finish-Refines b {v} {made} h plain f g accepted quiet = counted b.accepted refl
      where
        answered :
            (r : S × Result StoreError (List (Alert F)))
            → repo.commit_runtime_batch s (runtime_batch id b) ≡ r
            → Refines (some (v, made)) (
                some (
                  let (s', outcome) = r in
                  elim outcome [
                    | err x ↦ (record e { metrics = b.metrics }, s', err (store_failed x))
                    | ok committed ↦ (
                      record e {
                        metrics = b.metrics;
                        partitions = set_elem e.partitions id (publish_batch b p);
                      },
                      s',
                      ok committed,
                    )
                  ]))
        answered (s', err x) k =
            refused b.metrics (runtime_batch id b) (refl, accepted, f, g, ap sort_strings plain.0) k
        answered (s', ok alerts) k =
            stored b.metrics (publish_batch b p) (runtime_batch id b)
              (get_elem?-set_elem e.partitions id _ h) (publish_batch-view p b plain ∙ f)
              (refl, accepted, f, g, ap sort_strings plain.0) k

        counted :
            (acc : List (Observation F))
            → b.accepted ≡ acc
            → Refines (some (v, made)) (
                some (elim acc [
                  | [] ↦ (record e { metrics = b.metrics }, s, ok [])
                  | o ∷ os ↦ commit_batch repo (record e { metrics = b.metrics }) s id p b
                ]))
        counted [] k =
            let (rv, none_made) = quiet k in
            subst (λ m. Refines (some (v, m)) (some (record e { metrics = b.metrics }, s, ok [])))
              (sym none_made) (idle b.metrics (sym accepted ∙ k) rv)
        counted (o ∷ os) k = answered (repo.commit_runtime_batch s (runtime_batch id b)) refl

  module _ {S : Type 0} (repo : Repository F S) (s : S) (id : ℕ) (e : Engine F) ⦃fl : Float64 F⦄
      ⦃pl : Platform F⦄ (now : Time) (os : List (Observation F)) where
    ran-Refines :
        get_elem? e.partitions id ≡ some p
        → All (IsFrameOf (length e.partitions) id) os
        → Refines repo s id e
            (spec_accepted e.by_route now os (read p))
            (spec_run e.by_route now os (read p))
            (run_steps (length e.partitions) id e.by_route p now os (empty_batch e.metrics) >>= λ r.
              some (finish repo e s id p r))
    ran-Refines h a =
        came (run_steps (length e.partitions) id e.by_route p now os (empty_batch e.metrics)) refl
          (spec_run e.by_route now os (read p))
          (run_steps-RunFollows e.by_route p now (length e.partitions) id os (empty_batch e.metrics)
            a (refl, tt, tt))
      where
        came :
            (m : Option (Batch F × Option EngineError))
            → run_steps (length e.partitions) id e.by_route p now os (empty_batch e.metrics) ≡ m
            → (n : Outcome F) → RunFollows e.by_route p now [] m n
            → Refines repo s id e
                (spec_accepted e.by_route now os (read p))
                n
                (m >>= λ r. some (finish repo e s id p r))
        came none k none f = panicked
        came none k (some r) f = elim f [ ]
        came (some (b, some x)) k n f = elim f [ ]
        came (some (b, none)) k none f = elim f [ ]
        came (some (b, none)) k (some (v, made)) (f, g, plain) =
            finish-Refines repo s id e (spec_accepted e.by_route now os (read p)) b h plain f g
              (run_steps-accepted p now e.by_route (length e.partitions) id os
                (empty_batch e.metrics) a (refl, tt, tt) k)
              λ c.
                let (_, w, made_none) =
                  run_steps-IsQuiet p e.by_route now (length e.partitions) id os
                    (empty_batch e.metrics) a k c in
                (sym w ∙ f, sym g ∙ made_none)

    -- A batch of EvaluateBatch without resets, on a partition that the worker owns and of frames that belong
    -- to it, refines the specification, frame by frame on the states read as functions of their keys: it panics
    -- as the specification does, or commits the specification's frames, states and alerts and holds those states,
    -- or fails with that commit and keeps its states, or has neither changed nor stored anything where the
    -- specification takes no frame. The rest of the engine stays as it is, the counters aside.
    pub evaluate_batch-Refines :
        get_elem? e.partitions id ≡ some p
        → owns e.worker_index e.worker_count id ≡ true
        → All (IsFrameOf (length e.partitions) id) os
        → Refines repo s id e
            (spec_accepted e.by_route now os (read p))
            (spec_run e.by_route now os (read p))
            (evaluate_batch repo e s (pos id) now os)
    unfolding evaluate_batch evaluate_in
    evaluate_batch-Refines h q a =
        subst
          (λ o.
            Refines repo s id e (spec_accepted e.by_route now os (read p))
              (spec_run e.by_route now os (read p)) (evaluate_in repo e s id now os o))
          (sym h) (rw q (ran-Refines h a))
