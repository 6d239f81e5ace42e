-- ===== src/Engine/Run/Commits.antt =====
-- The partition after a commit of EvaluateBatch, and batches that accept nothing.
use mathlib.Core.Path.{subst, ap₂}
use mathlib.Core.Option.{some-injective}
use alerts.Common.{
  ℕ, zero, suc, get_elem?, String, false, Option, none, some, List, [], ◌∷◌, ◌++◌, or_zero, ◌>>=◌,
  nat_eq, string_eq, ◌≡◌, ◌≢◌, refl, sym, ap, ◌∙◌, fun_ext, Bool-cases, inl, inr, All,
}
use alerts.Common.Dict.{Dict, lookup, insert, insert_all, lookup-insert_all, first_of}
use alerts.Model.{
  Float64, Platform, Time, Observation, SeriesEvaluationState, DefinitionEvaluationState,
  empty_series_state, empty_definition_state, series_key,
}
use alerts.Engine.Policy.{stale}
use alerts.Engine.State.{PartitionRuntime}
use alerts.Engine.Routes.{Routes}
use alerts.Engine.Batch.{Batch, count_stale, empty_batch, accept_frame}
use alerts.Engine.Reset.{step}
use alerts.Engine.Run.{set_elem, sort_strings, forget_series, publish_batch, run_steps}
use alerts.Engine.Spec.{View, view_of}
use alerts.Engine.Spec.Refinement.{IsPlain}
use alerts.Engine.Spec.Steps.{IsFrameOf, step_frame}

pub get_elem?-set_elem {ℓ} :
    {A : Type ℓ} (xs : List A) (i : ℕ) (x : A) {y : A}
    → get_elem? xs i ≡ some y
    → get_elem? (set_elem xs i x) i ≡ some x
unfolding set_elem
get_elem?-set_elem [] i x h = cc
get_elem?-set_elem (z ∷ xs) zero x h = refl
get_elem?-set_elem (z ∷ xs) (suc i) x h = get_elem?-set_elem xs i x h

or_zero-first_of {ℓ} :
    {A : Type ℓ} (z : A) (x y : Option A) → or_zero z (first_of x y) ≡ or_zero (or_zero z y) x
or_zero-first_of z none y = refl
or_zero-first_of z (some x) y = refl

kept_definitions :
    (d : Dict String DefinitionEvaluationState) (keys : List String)
    → keys ≡ []
    → forget_series (sort_strings keys) d ≡ d
unfolding forget_series sort_strings
kept_definitions d [] h = refl
kept_definitions d (k ∷ ks) h = cc

-- A partition as the specification reads it.
abbrev pub read : {F : Type 0} → PartitionRuntime F → View F
read p = view_of p (empty_batch (record { stale_events = 0; reset_events = 0; rule_evals = 0 }))

not_empty {ℓ} : {A : Type ℓ} (xs : List A) (x : A) → (xs ++ x ∷ []) ≢ []
not_empty [] x h = cc
not_empty (y ∷ ys) x h = cc

module _ {F : Type 0} (p : PartitionRuntime F) where
  -- The partition after a commit shows what the partition and the batch showed together.
  pub publish_batch-view : (b : Batch F) → IsPlain p b → read (publish_batch b p) ≡ view_of p b
  unfolding publish_batch lookup
  publish_batch-view b (h, u, w) =
      let kept : forget_series (sort_strings b.reset_series) p.definitions ≡ p.definitions =
        kept_definitions p.definitions b.reset_series h in
      ap₂ (λ f g. view f g)
        (fun_ext λ k.
          ap (or_zero empty_series_state) (lookup-insert_all k b.series_states p.series u)
          ∙ or_zero-first_of empty_series_state (lookup k b.series_states) (lookup k p.series))
        (fun_ext λ k.
          ap (λ d. or_zero empty_definition_state (lookup k (insert_all b.definition_states d)))
            kept
          ∙ ap (or_zero empty_definition_state)
              (lookup-insert_all k b.definition_states p.definitions w)
          ∙ or_zero-first_of empty_definition_state (lookup k b.definition_states)
              (lookup k p.definitions))
    where
      view : (String → SeriesEvaluationState F) → (String → DefinitionEvaluationState) → View F
      view f g = record { series = f; definitions = g }

  -- What accepted nothing changed nothing but the counters.
  abbrev pub IsQuiet : Batch F → Batch F → Type 0
  IsQuiet b t =
      t.accepted ≡ [] → (b.accepted ≡ []) × (view_of p t ≡ view_of p b) × (t.alerts ≡ b.alerts)

  module _ ⦃fl : Float64 F⦄ ⦃pl : Platform F⦄ (routes : Routes F) (now : Time) where
    accept_frame-IsQuiet :
        (o : Observation F) (b : Batch F) {t : Batch F}
        → accept_frame routes p now o b ≡ some t
        → IsQuiet b t
    unfolding accept_frame
    accept_frame-IsQuiet o b h = bound _ _ _ _ h
      where
        bound :
            (key : String) (z : Observation F) (s : SeriesEvaluationState F) (m : Option (Batch F))
            {t : Batch F}
            → (m >>= λ t. some (record t {
              series_states = insert key s t.series_states;
              accepted = t.accepted ++ z ∷ [];
            }))
              ≡ some t
            → IsQuiet b t
        bound key z s none h = cc
        bound key z s (some t) h =
            subst (IsQuiet b) (some-injective _ _ h) λ a. elim (not_empty t.accepted z a) [ ]

    step-IsQuiet :
        (o : Observation F) (b : Batch F) {t : Batch F}
        → o.reset ≡ false
        → step routes p now o b ≡ some t
        → IsQuiet b t
    step-IsQuiet o b q h =
        let k = sym (step_frame routes p now o b q) ∙ h in
        elim (Bool-cases (stale o ((view_of p b).series (series_key o.series)))) [
          | inl y ↦ stays (some-injective _ _ (rw y at k))
          | inr n ↦ accept_frame-IsQuiet o b (rw n at k)
        ]
      where
        stays : {t : Batch F} → record b { metrics = count_stale b.metrics } ≡ t → IsQuiet b t
        stays e = subst (IsQuiet b) e λ a. (a, refl, refl)

    pub run_steps-IsQuiet :
        (count id : ℕ) (os : List (Observation F)) (b : Batch F) {t : Batch F}
        → All (IsFrameOf count id) os
        → run_steps count id routes p now os b ≡ some (t, none)
        → IsQuiet b t
    unfolding run_steps
    run_steps-IsQuiet count id [] b a h =
        subst (IsQuiet b) (ap (λ r. r.0) (some-injective _ _ h)) λ a. (a, refl, refl)
    run_steps-IsQuiet count id (o ∷ os) b (a, rest) h =
        went (step routes p now o b) refl (λ u. run_steps-IsQuiet count id os u rest)
          (rw ((nat_eq.same_iff _ _).1 a.0) at h)
      where
        went :
            (m : Option (Batch F)) {t : Batch F}
            → step routes p now o b ≡ m
            → ((u : Batch F) → run_steps count id routes p now os u ≡ some (t, none) → IsQuiet u t)
            → (m >>= λ t. run_steps count id routes p now os t) ≡ some (t, none)
            → IsQuiet b t
        went none e go k = cc
        went (some u) e go k = λ c.
            let (c₁, v₁, a₁) = go u k c in
            let (c₂, v₂, a₂) = step-IsQuiet o b a.1 e c₁ in (c₂, v₁ ∙ v₂, a₁ ∙ a₂)
