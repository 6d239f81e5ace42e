-- ===== src/Engine/Run/Replay.antt =====
-- A batch that is delivered again.
use mathlib.Core.Path.{subst}
use alerts.Common.{
  ℕ, ◌≤◌, true, Option, none, some, List, [], ◌∷◌, length, get_elem?, nat_eq, if◌then◌else◌, ◌>>=◌,
  Result, ok, err, ◌≡◌, refl, sym, ap, ◌∙◌, All,
}
use alerts.Common.Int.{pos}
use alerts.Model.{Float64, Platform, Time, Observation, Alert}
use alerts.Store.{Repository}
use alerts.Engine.State.{PartitionRuntime, Engine, Metrics}
use alerts.Engine.Partitions.{owns}
use alerts.Engine.Routes.{Routes}
use alerts.Engine.Batch.{Batch, empty_batch, count_stale, accept_frame}
use alerts.Engine.Reset.{step}
use alerts.Engine.Run.{EngineError, run_steps, finish, evaluate_in, evaluate_batch}
use alerts.Engine.Run.Commits.{read}
use alerts.Engine.Run.Refinement.{Refines, panicked, idle, stored, refused, evaluate_batch-Refines}
use alerts.Engine.Spec.{view_of, Outcome, spec_run, spec_accepted}
use alerts.Engine.Spec.Steps.{IsFrameOf, step_frame}
use alerts.Engine.Spec.Replay.{IsStale, AllStaleAfter, spec_run-AllStaleAfter}

module _ {F : Type 0} ⦃fl : Float64 F⦄ ⦃pl : Platform F⦄ where
  -- The loop passes over stale frames and counts them.
  run_steps-stale :
      (count id : ℕ) (routes : Routes F) (p : PartitionRuntime F) (now : Time)
      (os : List (Observation F)) (b : Batch F)
      → All (IsFrameOf count id) os
      → All (IsStale (view_of p b)) os
      → (m : Metrics) × (run_steps count id routes p now os b
          ≡ some (record b { metrics = m }, none))
  unfolding run_steps
  run_steps-stale count id routes p now [] b a h = (b.metrics, refl)
  run_steps-stale count id routes p now (o ∷ os) b (a, rest) (h, t) =
      let skipped : step routes p now o b ≡ some (record b { metrics = count_stale b.metrics }) =
        step_frame routes p now o b a.1
        ∙ ap
            (λ r.
              if r
              then some (record b { metrics = count_stale b.metrics })
              else accept_frame routes p now o b)
            h in
      let (m, e) =
        run_steps-stale count id routes p now os (record b { metrics = count_stale b.metrics }) rest
          t in
      (
        m,
        rw ((nat_eq.same_iff _ _).1 a.0)
            (ap (λ n. n >>= λ t. run_steps count id routes p now os t) skipped ∙ e),
      )

  module _ {S : Type 0} (repo : Repository F S) where
    -- A call that did nothing but count.
    abbrev pub IsNoOp :
        Engine F → S → Option (Engine F × S × Result EngineError (List (Alert F))) → Type 0
    IsNoOp e s out = (e' : Engine F) × (out ≡ some (e', s, ok [])) × (e'.partitions ≡ e.partitions)

    evaluate_batch-stale :
        (e : Engine F) (s : S) (id : ℕ) (p : PartitionRuntime F) (now : Time)
        (os : List (Observation F))
        → get_elem? e.partitions id ≡ some p
        → owns e.worker_index e.worker_count id ≡ true
        → All (IsFrameOf (length e.partitions) id) os
        → All (IsStale (read p)) os
        → IsNoOp e s (evaluate_batch repo e s (pos id) now os)
    unfolding evaluate_batch evaluate_in finish
    evaluate_batch-stale e s id p now os h q a t =
        let (m, k) =
          run_steps-stale (length e.partitions) id e.by_route p now os (empty_batch e.metrics) a
            t in
        (
          record e { metrics = m },
          ap (evaluate_in repo e s id now os) h
              ∙ rw q (ap (λ r. r >>= λ x. some (finish repo e s id p x)) k),
          refl,
        )

    -- What is read in the partition after a call that returned alerts.
    abbrev After :
        ℕ → Outcome F → Option (Engine F × S × Result EngineError (List (Alert F))) → Type 0
    After id n none = Unit
    After id n (some (e, s, err x)) = Unit
    After id n (some (e, s, ok alerts)) =
        (q : PartitionRuntime F) × (made : List (Alert F)) × (get_elem? e.partitions id ≡ some q)
        × (n ≡ some (read q, made))

    Refines-After :
        (p : PartitionRuntime F) (s : S) (id : ℕ) (e : Engine F) (taken : List (Observation F))
        (n : Outcome F) (out : Option (Engine F × S × Result EngineError (List (Alert F))))
        → get_elem? e.partitions id ≡ some p
        → Refines p repo s id e taken n out
        → After id n out
    Refines-After p s id e taken n out h panicked = tt
    Refines-After p s id e taken n out h (idle m none_taken r) =
        (p, [], h, ap (λ v. some (v, [])) (sym r))
    Refines-After p s id e taken n out h (stored {made = made} m q batch g r i c) =
        (q, made, g, ap (λ v. some (v, made)) (sym r))
    Refines-After p s id e taken n out h (refused m batch i c) = tt

    -- A batch without resets, of frames whose opening times are not zero, that EvaluateBatch has taken may be
    -- delivered again, to any state of the store and at any time: if the worker still owns the partition, the call
    -- returns no alerts, leaves the store and all partitions as they are, and only counts.
    pub evaluate_batch-IsNoOp :
        (p : PartitionRuntime F) (s s' t : S) (id : ℕ) (e e' : Engine F) (now later : Time)
        (os : List (Observation F)) (alerts : List (Alert F))
        → get_elem? e.partitions id ≡ some p
        → owns e.worker_index e.worker_count id ≡ true
        → All (IsFrameOf (length e.partitions) id) os
        → All (λ o. 1 ≤ o.candle.open_time) os
        → evaluate_batch repo e s (pos id) now os ≡ some (e', s', ok alerts)
        → owns e'.worker_index e'.worker_count id ≡ true
        → All (IsFrameOf (length e'.partitions) id) os
        → IsNoOp e' t (evaluate_batch repo e' t (pos id) later os)
    evaluate_batch-IsNoOp p s s' t id e e' now later os alerts h q a opened first owned frames =
        let (r, made, g, k) =
          Refines-After p s id e (spec_accepted e.by_route now os (read p))
            (spec_run e.by_route now os (read p)) (some (e', s', ok alerts)) h
            (subst
              (Refines p repo s id e (spec_accepted e.by_route now os (read p))
                (spec_run e.by_route now os (read p)))
              first (evaluate_batch-Refines p repo s id e now os h q a)) in
        let (stale_frames, kept) =
          subst (AllStaleAfter (read p) os) k
            (spec_run-AllStaleAfter e.by_route now os (read p) opened) in
        evaluate_batch-stale e' t id r later os g owned frames stale_frames
