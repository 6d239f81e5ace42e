-- ===== src/Engine/Reset/Committed.antt =====
-- What the states of a series' definitions are after a reset of internal/runtime/engine.go.
use mathlib.Core.Path.{subst}
use mathlib.Core.Option.{some-injective}
use alerts.Common.{
  ◌≡◌, refl, ap, sym, ◌∙◌, String, Bool, true, false, Option, none, some, List, [], ◌∷◌, ◌++◌, ◌==◌,
  string_eq, or_zero, ◌>>=◌, Bool-cases, inl, inr,
}
use alerts.Common.Dict.{Dict, lookup, insert, delete_if, lookup-insert, lookup-delete_if}
use alerts.Model.{
  Float64, Platform, series_key, Observation, FeatureState, FactReference,
  DefinitionEvaluationState, empty_definition_state, empty_features,
}
use alerts.Rules.Evaluate.{evaluate_detailed}
use alerts.Store.{definition_state_key}
use alerts.Engine.Policy.{accepts_mode}
use alerts.Engine.State.{CompiledDefinition, PartitionRuntime}
use alerts.Engine.Routes.{Routes, definitions_for}
use alerts.Engine.Batch.{Batch, mark_reset, count_reset}
use alerts.Engine.Reset.{
  of_series, rebuild_truth, rebuild_definitions, rebuild_features, reset_series_state, accept_reset,
}

-- A state that has its trigger times from the committed state of its key, and no intrabar truth.
abbrev pub IsRebuilt :
    {F : Type 0} → PartitionRuntime F → String → DefinitionEvaluationState → Type 0
IsRebuilt p k s =
    let old = or_zero empty_definition_state (lookup k p.definitions) in
    (s.last_trigger_at ≡ old.last_trigger_at)
    × (s.last_alert_bar ≡ old.last_alert_bar)
    × (s.last_truth_intrabar ≡ false)

not_both {ℓ} : {A : Type ℓ} {x : A} (o : Option A) → o ≡ none → o ≡ some x → ⊥
not_both o h k = cc

module _ {F : Type 0} (p : PartitionRuntime F) (key : String) where
  -- All states of the series in a map are rebuilt.
  abbrev AreRebuilt : Dict String DefinitionEvaluationState → Type 0
  AreRebuilt d =
      (k : String) (s : DefinitionEvaluationState)
      → of_series key k ≡ true
      → lookup k d ≡ some s
      → IsRebuilt p k s

  delete_if-AreRebuilt :
      (d : Dict String DefinitionEvaluationState) → AreRebuilt (delete_if (of_series key) d)
  delete_if-AreRebuilt d k s h e = absurd (
      not_both (lookup k (delete_if (of_series key) d))
        (lookup-delete_if (of_series key) k d ∙ rw h) e)

  insert-AreRebuilt :
      (j : String) (t : DefinitionEvaluationState) (d : Dict String DefinitionEvaluationState)
      → IsRebuilt p j t
      → AreRebuilt d
      → AreRebuilt (insert j t d)
  insert-AreRebuilt j t d new old k s h e = elim (Bool-cases (j == k)) [
    | inl same ↦
        let found : some t ≡ some s = sym (lookup-insert j k t d ∙ rw same) ∙ e in
        subst (IsRebuilt p k) (some-injective _ _ found)
          (subst (λ i. IsRebuilt p i t) ((string_eq.same_iff j k).0 same) new)
    | inr other ↦ old k s h (sym (lookup-insert j k t d ∙ rw other) ∙ e)
  ]

  module _ ⦃fl : Float64 F⦄ ⦃pl : Platform F⦄ where
    rebuild_truth-AreRebuilt :
        (id : String) (truth : Bool) (b : Batch F)
        → AreRebuilt b.definition_states
        → AreRebuilt (rebuild_truth p key id truth b).definition_states
    unfolding rebuild_truth
    rebuild_truth-AreRebuilt id truth b h =
        insert-AreRebuilt (definition_state_key id key) _ b.definition_states (refl, refl, refl) h

    rebuild_definitions-AreRebuilt :
        (o : Observation F) (feature : FeatureState F) (cs : List (CompiledDefinition F))
        (b : Batch F) {out : Batch F}
        → AreRebuilt b.definition_states
        → rebuild_definitions p key o feature cs b ≡ some out
        → AreRebuilt out.definition_states
    unfolding rebuild_definitions
    rebuild_definitions-AreRebuilt o feature [] b h e =
        subst (λ t. AreRebuilt t.definition_states) (some-injective _ _ e) h
    rebuild_definitions-AreRebuilt o feature (c ∷ cs) b {out = out} h e =
        elim (Bool-cases (accepts_mode c.definition.evaluation_mode "confirmed")) [
          | inr n ↦ rebuild_definitions-AreRebuilt o feature cs b {out = out} h (rw n at e)
          | inl y ↦
              evaluated (evaluate_detailed c.rule o feature)
                (λ truth.
                  rebuild_definitions-AreRebuilt o feature cs
                    (rebuild_truth p key c.definition.id truth b) {out = out}
                    (rebuild_truth-AreRebuilt c.definition.id truth b h))
                (rw y at e)
        ]
      where
        evaluated :
            (r : Option (Bool × List String × List (FactReference F)))
            → ((truth : Bool)
                → rebuild_definitions p key o feature cs
                    (rebuild_truth p key c.definition.id truth b)
                  ≡ some out
                → AreRebuilt out.definition_states)
            → (r >>= λ x.
                rebuild_definitions p key o feature cs (rebuild_truth p key c.definition.id x.0 b))
              ≡ some out
            → AreRebuilt out.definition_states
        evaluated none go k = cc
        evaluated (some x) go k = go x.0 k

-- A last step that leaves the states of the definitions alone.
last_step-AreRebuilt :
    {F : Type 0} (p : PartitionRuntime F) (key : String) (r : Option (Batch F))
    (g : Batch F → Batch F) (out : Batch F)
    → ((t : Batch F) → (g t).definition_states ≡ t.definition_states)
    → ((t : Batch F) → r ≡ some t → AreRebuilt p key t.definition_states)
    → (r >>= λ t. some (g t)) ≡ some out
    → AreRebuilt p key out.definition_states
last_step-AreRebuilt p key none g out same rebuilt e = cc
last_step-AreRebuilt p key (some t) g out same rebuilt e =
    subst (AreRebuilt p key) (sym (same t) ∙ ap (λ u. u.definition_states) (some-injective _ _ e))
      (rebuilt t refl)

module _ {F : Type 0} ⦃fl : Float64 F⦄ ⦃pl : Platform F⦄ where
  -- After a reset, each state that the batch holds for a definition of the series has the trigger times of the
  -- committed state, or none where there is no such state, and no intrabar truth: what earlier frames of the same
  -- batch recorded is gone.
  pub accept_reset-IsRebuilt :
      (routes : Routes F) (p : PartitionRuntime F) (o : Observation F) (b out : Batch F)
      (k : String) (s : DefinitionEvaluationState)
      → accept_reset routes p o b ≡ some out
      → of_series (series_key o.series) k ≡ true
      → lookup k out.definition_states ≡ some s
      → IsRebuilt p k s
  unfolding accept_reset
  accept_reset-IsRebuilt routes p o b out k s e h found =
      let key = series_key o.series in
      let feature = rebuild_features empty_features o.history in
      let cleared : Batch F = record b {
        definition_states = delete_if (of_series key) b.definition_states;
        reset_series = mark_reset key b;
        metrics = count_reset b.metrics;
      } in
      last_step-AreRebuilt p key
        (rebuild_definitions p key o feature (definitions_for routes o.series) cleared)
        (λ t. record t {
          series_states = insert key (reset_series_state o feature) t.series_states;
          accepted = t.accepted ++ o ∷ [];
        })
        out (λ t. refl)
        (λ t q.
          rebuild_definitions-AreRebuilt p key o feature (definitions_for routes o.series) cleared
            {out = t} (delete_if-AreRebuilt p key b.definition_states) q)
        e k s h found
