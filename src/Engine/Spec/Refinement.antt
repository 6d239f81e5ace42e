-- ===== src/Engine/Spec/Refinement.antt =====
-- EvaluateBatch refines its specification on batches without resets.
use mathlib.Core.Path.{subst}
use alerts.Common.{
  String, Bool, true, false, Option, none, some, List, [], ◌∷◌, ◌++◌, append-nil, append_assoc,
  ◌==◌, nat_eq, string_eq, if◌then◌else◌, or_zero, ◌>>=◌, ◌≡◌, refl, sym, ap, ◌∙◌, fun_ext,
  Bool-cases, inl, inr,
}
use alerts.Common.Dict.{lookup, insert, lookup-insert, IsUnique, insert-IsUnique}
use alerts.Model.{
  Float64, Platform, Time, FactReference, Observation, AlertDefinition, Alert, FeatureState,
  SeriesEvaluationState, DefinitionEvaluationState, empty_series_state, empty_definition_state,
}
use alerts.Rules.Evaluate.{evaluate_detailed}
use alerts.Store.{definition_state_key}
use alerts.Engine.Policy.{triggers, next_definition_state}
use alerts.Engine.State.{CompiledDefinition, PartitionRuntime}
use alerts.Engine.Batch.{
  Batch, is_reset, applies, make_alert, definition_state_of, conclude, evaluate_definitions,
}
use alerts.Engine.Spec.{
  View, update, view_of, Outcome, prepend, concluded, alerts_of, spec_definitions,
}

or_zero-insert {ℓ} :
    {A : Type ℓ} (b : Bool) (z x : A) (o : Option A)
    → or_zero z (if b then some x else o) ≡ (if b then x else or_zero z o)
or_zero-insert true z x o = refl
or_zero-insert false z x o = refl

append_if {ℓ} :
    {A : Type ℓ} (b : Bool) (xs : List A) (x : A)
    → (if b then xs ++ x ∷ [] else xs) ≡ xs ++ (if b then x ∷ [] else [])
append_if true xs x = refl
append_if false xs x = sym (append-nil xs)

module _ {F : Type 0} (p : PartitionRuntime F) where
  -- An insertion into a map of a batch changes its view at one key.
  view_definitions-insert :
      (key : String) (s : DefinitionEvaluationState) (b : Batch F)
      → (view_of p (record b { definition_states = insert key s b.definition_states })).definitions
        ≡ update key s (view_of p b).definitions
  view_definitions-insert key s b = fun_ext λ k.
      ap (or_zero (or_zero empty_definition_state (lookup k p.definitions)))
        (lookup-insert key k s b.definition_states)
      ∙ or_zero-insert (key == k) (or_zero empty_definition_state (lookup k p.definitions)) s
          (lookup k b.definition_states)

  pub view_series-insert :
      (key : String) (s : SeriesEvaluationState F) (b : Batch F)
      → (view_of p (record b { series_states = insert key s b.series_states })).series
        ≡ update key s (view_of p b).series
  view_series-insert key s b = fun_ext λ k.
      ap (or_zero (or_zero empty_series_state (lookup k p.series)))
        (lookup-insert key k s b.series_states)
      ∙ or_zero-insert (key == k) (or_zero empty_series_state (lookup k p.series)) s
          (lookup k b.series_states)

  -- No series is marked as reset, and no key of the maps stands twice.
  abbrev pub IsPlain : Batch F → Type 0
  IsPlain b = (b.reset_series ≡ []) × IsUnique b.series_states × IsUnique b.definition_states

  -- The batch that a computation leaves shows what the specification says, its alerts come after those of
  -- before, and it is plain.
  abbrev pub Follows : List (Alert F) → Option (Batch F) → Outcome F → Type 0
  Follows old none none = Unit
  Follows old none (some r) = ⊥
  Follows old (some b) none = ⊥
  Follows old (some b) (some (v, alerts)) =
      (view_of p b ≡ v) × (b.alerts ≡ old ++ alerts) × IsPlain b

  pub Follows-prepend :
      (old new : List (Alert F)) (m : Option (Batch F)) (n : Outcome F)
      → Follows (old ++ new) m n
      → Follows old m (prepend new n)
  Follows-prepend old new none none h = tt
  Follows-prepend old new none (some r) h = h
  Follows-prepend old new (some b) none h = h
  Follows-prepend old new (some b) (some (v, alerts)) (e, f, g) =
      (e, f ∙ append_assoc old new alerts, g)

  not_reset : (key : String) (b : Batch F) → b.reset_series ≡ [] → is_reset key b ≡ false
  not_reset key b h = rw h

  module _ ⦃fl : Float64 F⦄ ⦃pl : Platform F⦄ (now : Time) (key : String) (o : Observation F) where
    definition_state_of_lem :
        (k : String) (b : Batch F)
        → b.reset_series ≡ []
        → definition_state_of p key k b ≡ (view_of p b).definitions k
    unfolding definition_state_of
    definition_state_of_lem k b h =
        ap
          (λ r.
            or_zero
              (if r
                then empty_definition_state
                else or_zero empty_definition_state (lookup k p.definitions))
              (lookup k b.definition_states))
          (not_reset key b h)

    conclude_view :
        (d : AlertDefinition F) (r : Bool × List String × List (FactReference F)) (b : Batch F)
        → b.reset_series ≡ []
        → view_of p (conclude p now key o d r b) ≡ concluded key o d r.0 (view_of p b)
    unfolding conclude
    conclude_view d (truth, reasons, facts) b h =
        let v : View F = view_of p b in
        let k = definition_state_key d.id key in
        ap (λ f. record v { definitions = f })
          (view_definitions-insert k
              (next_definition_state d o truth (definition_state_of p key k b)) b
            ∙ ap (λ s. update k (next_definition_state d o truth s) v.definitions)
                (definition_state_of_lem k b h))

    conclude_alerts :
        (d : AlertDefinition F) (r : Bool × List String × List (FactReference F)) (b : Batch F)
        → b.reset_series ≡ []
        → (conclude p now key o d r b).alerts ≡ b.alerts ++ alerts_of now key o d r (view_of p b)
    unfolding conclude
    conclude_alerts d (truth, reasons, facts) b h =
        let k = definition_state_key d.id key in
        let made = make_alert now d o reasons facts in
        ap (λ s. if triggers d o truth s then b.alerts ++ made ∷ [] else b.alerts)
          (definition_state_of_lem k b h)
        ∙ append_if (triggers d o truth ((view_of p b).definitions k)) b.alerts made

    conclude-IsPlain :
        (d : AlertDefinition F) (r : Bool × List String × List (FactReference F)) (b : Batch F)
        → IsPlain b
        → IsPlain (conclude p now key o d r b)
    unfolding conclude
    conclude-IsPlain d (truth, reasons, facts) b (h, s, u) =
        (h, s, insert-IsUnique _ _ b.definition_states u)

    pub evaluate_definitions-Follows :
        (feature : FeatureState F) (cs : List (CompiledDefinition F)) (b : Batch F)
        → IsPlain b
        → Follows b.alerts
            (evaluate_definitions p now key o feature cs b)
            (spec_definitions now key o feature cs (view_of p b))
    unfolding evaluate_definitions spec_definitions
    evaluate_definitions-Follows feature [] b h = (refl, sym (append-nil b.alerts), h)
    evaluate_definitions-Follows feature (c ∷ cs) b h = elim (Bool-cases (applies c o)) [
      | inr n ↦ rw n (evaluate_definitions-Follows feature cs b h)
      | inl y ↦ rw y (
          evaluated (evaluate_detailed c.rule o feature) (λ r.
            evaluate_definitions-Follows feature cs (conclude p now key o c.definition r b)
              (conclude-IsPlain c.definition r b h)))
    ]
      where
        evaluated :
            (m : Option (Bool × List String × List (FactReference F)))
            → ((r : Bool × List String × List (FactReference F))
                → Follows
                    (conclude p now key o c.definition r b).alerts
                    (evaluate_definitions p now key o feature cs
                      (conclude p now key o c.definition r b))
                    (spec_definitions now key o feature cs
                      (view_of p (conclude p now key o c.definition r b))))
            → Follows b.alerts
                (m >>= λ r.
                  evaluate_definitions p now key o feature cs
                    (conclude p now key o c.definition r b))
                (m >>= λ r. prepend (alerts_of now key o c.definition r (view_of p b)) (
                  spec_definitions now key o feature cs
                    (concluded key o c.definition r.0 (view_of p b))))
        evaluated none go = tt
        evaluated (some r) go =
            let d = c.definition in
            let c₁ = conclude p now key o d r b in
            Follows-prepend b.alerts (alerts_of now key o d r (view_of p b)) _ _ (
              subst
                (λ v.
                  Follows (b.alerts ++ alerts_of now key o d r (view_of p b))
                    (evaluate_definitions p now key o feature cs c₁)
                    (spec_definitions now key o feature cs v))
                (conclude_view d r b h.0)
                (subst
                  (λ old.
                    Follows old (evaluate_definitions p now key o feature cs c₁)
                      (spec_definitions now key o feature cs (view_of p c₁)))
                  (conclude_alerts d r b h.0) (go r)))
