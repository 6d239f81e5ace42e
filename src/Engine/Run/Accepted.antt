-- ===== src/Engine/Run/Accepted.antt =====
-- The frames that the loop of EvaluateBatch accepts.
use mathlib.Core.Option.{some-injective}
use alerts.Common.{
  ℕ, String, Bool, false, Option, none, some, List, [], ◌∷◌, ◌++◌, append-nil, append_assoc, ◌>>=◌,
  if◌then◌else◌, nat_eq, string_eq, ◌≡◌, refl, sym, ap, ◌∙◌, Bool-cases, inl, inr, All,
}
use alerts.Common.Dict.{insert}
use alerts.Model.{
  Float64, Platform, Time, FactReference, Observation, FeatureState, SeriesEvaluationState,
  series_key,
}
use alerts.Rules.Evaluate.{evaluate_detailed}
use alerts.Engine.Policy.{stale}
use alerts.Engine.State.{CompiledDefinition, PartitionRuntime}
use alerts.Engine.Routes.{Routes}
use alerts.Engine.Batch.{
  Batch, count_stale, applies, conclude, evaluate_definitions, accept_frame, series_state_of,
  with_zones,
}
use alerts.Engine.Reset.{step}
use alerts.Engine.Run.{run_steps}
use alerts.Engine.Spec.{view_of, Outcome, spec_step, spec_accepted}
use alerts.Engine.Spec.Refinement.{IsPlain, Follows}
use alerts.Engine.Spec.Steps.{IsFrameOf, step_frame, step-Follows}

module _ {F : Type 0} ⦃fl : Float64 F⦄ ⦃pl : Platform F⦄ (p : PartitionRuntime F) (now : Time) where
  -- The definitions of a frame accept nothing by themselves.
  evaluate_definitions-accepted :
      (key : String) (o : Observation F) (f : FeatureState F) (cs : List (CompiledDefinition F))
      (b : Batch F) {t : Batch F}
      → evaluate_definitions p now key o f cs b ≡ some t
      → t.accepted ≡ b.accepted
  unfolding evaluate_definitions conclude
  evaluate_definitions-accepted key o f [] b h = ap (λ t. t.accepted) (sym (some-injective _ _ h))
  evaluate_definitions-accepted key o f (c ∷ cs) b h = elim (Bool-cases (applies c o)) [
    | inr n ↦ evaluate_definitions-accepted key o f cs b (rw n at h)
    | inl y ↦
        evaluated (evaluate_detailed c.rule o f) (rw y at h)
          (λ r. evaluate_definitions-accepted key o f cs (conclude p now key o c.definition r b))
  ]
    where
      evaluated :
          (m : Option (Bool × List String × List (FactReference F))) {t : Batch F}
          → (m >>= λ r.
              evaluate_definitions p now key o f cs (conclude p now key o c.definition r b))
            ≡ some t
          → ((r : Bool × List String × List (FactReference F))
              → evaluate_definitions p now key o f cs (conclude p now key o c.definition r b)
                ≡ some t
              → t.accepted ≡ b.accepted)
          → t.accepted ≡ b.accepted
      evaluated none h go = cc
      evaluated (some r) h go = go r h

  module _ (routes : Routes F) where
    accept_frame-accepted :
        (o : Observation F) (b : Batch F) {t : Batch F}
        → accept_frame routes p now o b ≡ some t
        → t.accepted ≡ b.accepted ++ with_zones o ((view_of p b).series (series_key o.series)) ∷ []
    unfolding accept_frame series_state_of
    accept_frame-accepted o b h = bound _ _ _ _ (λ u. evaluate_definitions-accepted _ _ _ _ b) h
      where
        bound :
            (key : String) (z : Observation F) (s : SeriesEvaluationState F) (m : Option (Batch F))
            {t : Batch F}
            → ((u : Batch F) → m ≡ some u → u.accepted ≡ b.accepted)
            → (m >>= λ t. some (record t {
              series_states = insert key s t.series_states;
              accepted = t.accepted ++ z ∷ [];
            }))
              ≡ some t
            → t.accepted ≡ b.accepted ++ z ∷ []
        bound key z s none go h = cc
        bound key z s (some u) go h =
            ap (λ t. t.accepted) (sym (some-injective _ _ h)) ∙ ap (λ xs. xs ++ z ∷ []) (go u refl)

    step-accepted :
        (o : Observation F) (b : Batch F) {t : Batch F}
        → o.reset ≡ false
        → step routes p now o b ≡ some t
        → (let s = (view_of p b).series (series_key o.series) in
            t.accepted ≡ b.accepted ++ (if stale o s then [] else with_zones o s ∷ []))
    step-accepted o b q h =
        let k = sym (step_frame routes p now o b q) ∙ h in
        elim (Bool-cases (stale o ((view_of p b).series (series_key o.series)))) [
          | inl y ↦ rw y (stays (some-injective _ _ (rw y at k)))
          | inr n ↦ rw n (accept_frame-accepted o b (rw n at k))
        ]
      where
        stays :
            {t : Batch F}
            → record b { metrics = count_stale b.metrics } ≡ t
            → t.accepted ≡ b.accepted ++ []
        stays e = ap (λ t. t.accepted) (sym e) ∙ sym (append-nil b.accepted)

    -- The loop accepts the frames that the specification does.
    pub run_steps-accepted :
        (count id : ℕ) (os : List (Observation F)) (b : Batch F) {t : Batch F}
        → All (IsFrameOf count id) os
        → IsPlain p b
        → run_steps count id routes p now os b ≡ some (t, none)
        → t.accepted ≡ b.accepted ++ spec_accepted routes now os (view_of p b)
    unfolding run_steps spec_accepted
    run_steps-accepted count id [] b a pl h =
        ap (λ r. r.0.accepted) (sym (some-injective _ _ h)) ∙ sym (append-nil b.accepted)
    run_steps-accepted count id (o ∷ os) b (a, rest) pl h =
        went (step routes p now o b) (spec_step routes now o (view_of p b))
          (step-Follows routes p now o b a.1 pl) (λ u. step-accepted o b a.1)
          (λ u. run_steps-accepted count id os u rest) (rw ((nat_eq.same_iff _ _).1 a.0) at h)
      where
        s : SeriesEvaluationState F
        s = (view_of p b).series (series_key o.series)

        taken : List (Observation F)
        taken = if stale o s then [] else with_zones o s ∷ []

        went :
            (m : Option (Batch F)) (n : Outcome F) {t : Batch F}
            → Follows p b.alerts m n
            → ((u : Batch F) → m ≡ some u → u.accepted ≡ b.accepted ++ taken)
            → ((u : Batch F)
                → IsPlain p u
                → run_steps count id routes p now os u ≡ some (t, none)
                → t.accepted ≡ u.accepted ++ spec_accepted routes now os (view_of p u))
            → (m >>= λ t. run_steps count id routes p now os t) ≡ some (t, none)
            → t.accepted
              ≡ b.accepted
                ++ (taken
                    ++ (elim n [ none ↦ [] | some (w, alerts) ↦ spec_accepted routes now os w ]))
        went none n f acc go k = cc
        went (some u) none f acc go k = elim f [ ]
        went (some u) (some (v, alerts)) (e, _, plain) acc go k =
            go u plain k
            ∙ ap (λ xs. xs ++ spec_accepted routes now os (view_of p u)) (acc u refl)
            ∙ append_assoc b.accepted taken (spec_accepted routes now os (view_of p u))
            ∙ ap (λ w. b.accepted ++ (taken ++ spec_accepted routes now os w)) e
