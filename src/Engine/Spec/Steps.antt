-- ===== src/Engine/Spec/Steps.antt =====
-- The loop of EvaluateBatch over frames without resets, and the commit that follows it.
use mathlib.Core.Path.{subst}
use alerts.Common.{
  ℕ, String, false, not, ◌&&◌, Option, none, some, List, [], ◌∷◌, ◌++◌, append-nil, nat_eq,
  string_eq, if◌then◌else◌, ◌>>=◌, ◌≡◌, refl, sym, ap, ◌∙◌, Bool-cases, inl, inr, All,
}
use alerts.Common.Dict.{insert, insert-IsUnique}
use alerts.Model.{Float64, Platform, Time, Observation, Alert, SeriesEvaluationState, series_key}
use alerts.Engine.Policy.{stale, stale_reset}
use alerts.Engine.State.{PartitionRuntime}
use alerts.Engine.Partitions.{partition_of}
use alerts.Engine.Routes.{Routes, definitions_for}
use alerts.Engine.Batch.{
  Batch, count_stale, with_zones, features_for, advance_series, series_state_of, accept_frame,
}
use alerts.Engine.Reset.{step, accept_reset}
use alerts.Engine.Run.{EngineError, run_steps}
use alerts.Engine.Spec.{
  View, update, view_of, Outcome, prepend, move_series, spec_definitions, spec_step, spec_run,
}
use alerts.Engine.Spec.Refinement.{
  IsPlain, Follows, Follows-prepend, view_series-insert, evaluate_definitions-Follows,
}

-- Frames of a partition that are no resets.
abbrev pub IsFrameOf : {F : Type 0} → ℕ → ℕ → Observation F → Type 0
IsFrameOf count id o = (partition_of count o.series ≡ id) × (o.reset ≡ false)

moved_series : {F : Type 0} → View F → (String → SeriesEvaluationState F) → View F
moved_series v f = record v { series = f }

module _ {F : Type 0} ⦃fl : Float64 F⦄ ⦃pl : Platform F⦄ (routes : Routes F)
    (p : PartitionRuntime F) (now : Time) where
  -- A series moves on in the batch as in the specification.
  Follows-move :
      (old : List (Alert F)) (key : String) (s : SeriesEvaluationState F) (o : Observation F)
      (m : Option (Batch F)) (n : Outcome F)
      → Follows p old m n
      → Follows p old
          (m >>= λ t. some (record t {
            series_states = insert key s t.series_states;
            accepted = t.accepted ++ o ∷ [];
          }))
          (move_series key s n)
  unfolding moved_series
  Follows-move old key s o none none h = tt
  Follows-move old key s o none (some r) h = h
  Follows-move old key s o (some b) none h = h
  Follows-move old key s o (some b) (some (v, alerts)) (e, f, (g, u, w)) = (
    ap (moved_series (view_of p b)) (view_series-insert p key s b)
        ∙ ap (λ v. moved_series v (update key s v.series)) e,
    f,
    (g, insert-IsUnique key s b.series_states u, w),
  )

  accept_frame-Follows :
      (o : Observation F) (b : Batch F)
      → IsPlain p b
      → Follows p b.alerts (accept_frame routes p now o b) (
          let key = series_key o.series in
          let s = (view_of p b).series key in
          let z = with_zones o s in
          move_series key (advance_series z (features_for z s) s) (
            spec_definitions now key z
              (features_for z s)
              (definitions_for routes z.series)
              (view_of p b)))
  unfolding accept_frame series_state_of
  accept_frame-Follows o b h =
      let key = series_key o.series in
      let s = (view_of p b).series key in
      let z = with_zones o s in
      let f = features_for z s in
      Follows-move b.alerts key (advance_series z f s) z _ _
        (evaluate_definitions-Follows p now key z f (definitions_for routes z.series) b h)

  -- A frame that is no reset is stale or accepted.
  pub step_frame :
      (o : Observation F) (b : Batch F)
      → o.reset ≡ false
      → step routes p now o b ≡ (
          if stale o ((view_of p b).series (series_key o.series))
          then some (record b { metrics = count_stale b.metrics })
          else accept_frame routes p now o b)
  unfolding step series_state_of
  step_frame o b q =
      ap
        (λ r.
          if r && stale_reset o ((view_of p b).series (series_key o.series))
          then some (record b { metrics = count_stale b.metrics })
          else if not r && stale o ((view_of p b).series (series_key o.series))
          then some (record b { metrics = count_stale b.metrics })
          else if r
          then accept_reset routes p o b
          else accept_frame routes p now o b)
        q

  pub step-Follows :
      (o : Observation F) (b : Batch F)
      → o.reset ≡ false
      → IsPlain p b
      → Follows p b.alerts (step routes p now o b) (spec_step routes now o (view_of p b))
  unfolding spec_step
  step-Follows o b q h =
      rw (step_frame o b q)
        (elim (Bool-cases (stale o ((view_of p b).series (series_key o.series)))) [
          | inl y ↦ rw y (refl, sym (append-nil b.alerts), h)
          | inr n ↦ rw n (accept_frame-Follows o b h)
        ])

  -- The loop ends without an error, or panics as the specification does.
  abbrev pub RunFollows :
      List (Alert F) → Option (Batch F × Option EngineError) → Outcome F → Type 0
  RunFollows old none n = Follows p old none n
  RunFollows old (some (b, none)) n = Follows p old (some b) n
  RunFollows old (some (b, some x)) n = ⊥

  RunFollows-prepend :
      (old new : List (Alert F)) (m : Option (Batch F × Option EngineError)) (n : Outcome F)
      → RunFollows (old ++ new) m n
      → RunFollows old m (prepend new n)
  RunFollows-prepend old new none n h = Follows-prepend p old new none n h
  RunFollows-prepend old new (some (b, none)) n h = Follows-prepend p old new (some b) n h
  RunFollows-prepend old new (some (b, some x)) n h = h

  pub run_steps-RunFollows :
      (count id : ℕ) (os : List (Observation F)) (b : Batch F)
      → All (IsFrameOf count id) os
      → IsPlain p b
      → RunFollows b.alerts
          (run_steps count id routes p now os b)
          (spec_run routes now os (view_of p b))
  unfolding run_steps spec_run
  run_steps-RunFollows count id [] b a h = (refl, sym (append-nil b.alerts), h)
  run_steps-RunFollows count id (o ∷ os) b (a, rest) h = rw ((nat_eq.same_iff _ _).1 a.0) (
      went (step routes p now o b) (spec_step routes now o (view_of p b)) (step-Follows o b a.1 h)
        (run_steps-RunFollows count id os))
    where
      went :
          (m : Option (Batch F)) (n : Outcome F)
          → Follows p b.alerts m n
          → ((t : Batch F)
              → All (IsFrameOf count id) os
              → IsPlain p t
              → RunFollows t.alerts
                  (run_steps count id routes p now os t)
                  (spec_run routes now os (view_of p t)))
          → RunFollows b.alerts
              (m >>= λ t. run_steps count id routes p now os t)
              (n >>= λ (w, alerts). prepend alerts (spec_run routes now os w))
      went none none f go = tt
      went none (some r) f go = elim f [ ]
      went (some t) none f go = elim f [ ]
      went (some t) (some (v, alerts)) (e, f, k) go =
          RunFollows-prepend b.alerts alerts (run_steps count id routes p now os t)
            (spec_run routes now os v)
            (subst
              (λ w.
                RunFollows (b.alerts ++ alerts) (run_steps count id routes p now os t)
                  (spec_run routes now os w))
              e
              (subst
                (λ old.
                  RunFollows old (run_steps count id routes p now os t)
                    (spec_run routes now os (view_of p t)))
                f (go t rest k)))
