-- ===== src/Engine/Run/Safety.antt =====
-- EvaluateBatch never panics on an engine that the package's operations have built.
use alerts.Common.{
  ℕ, ◌≡◌, refl, String, Bool, true, false, not, ◌&&◌, Option, none, some, List, [], ◌∷◌, string_eq,
  nat_eq, if◌then◌else◌, is_some, ◌>>=◌, length, get_elem?,
}
use alerts.Common.Int.{ℤ, pos, negsuc}
use alerts.Model.{Float64, Platform, series_key, Time, Observation, FeatureState, empty_features}
use alerts.Rules.Validate.{validate}
use alerts.Rules.Evaluate.{Compiled, evaluate, evaluate_detailed}
use alerts.Rules.Evaluate.Panics.{evaluate_safe}
use alerts.Store.{Repository}
use alerts.Engine.State.{CompiledDefinition, PartitionRuntime, Engine}
use alerts.Engine.Routes.{Routes, definitions_for}
use alerts.Engine.Routes.Validity.{AllCompiled, AreCompiled, definitions_for-AllCompiled}
use alerts.Engine.Batch.{
  Batch, conclude, applies, evaluate_definitions, accept_frame, series_state_of, with_zones,
  features_for, count_stale,
}
use alerts.Engine.Reset.{rebuild_definitions, rebuild_features, accept_reset, step}
use alerts.Engine.Policy.{stale, stale_reset}
use alerts.Engine.Run.{run_steps, evaluate_in, evaluate_batch}

-- A computation that does not panic.
pub record Runs {ℓ} {A : Type ℓ} (m : Option A) : Type 0 where
  pub defined : is_some m ≡ true

Runs-some {ℓ} : {A : Type ℓ} (a : A) → Runs (some a)
Runs-some a = record { defined = refl }

-- A chain of steps that do not panic does not panic.
Runs->>= {ℓ κ} :
    {A : Type ℓ} {B : Type κ} (m : Option A) (f : A → Option B)
    → Runs m
    → ((a : A) → Runs (f a))
    → Runs (m >>= f)
Runs->>= none f h k = cc (h.defined)
Runs->>= (some a) f h k = k a

Runs-if {ℓ} : {A : Type ℓ} (b : Bool) (m n : Option A) → Runs m → Runs n → Runs (if b then m else n)
Runs-if true m n h k = h
Runs-if false m n h k = k

module _ {F : Type 0} ⦃fl : Float64 F⦄ ⦃pl : Platform F⦄ where
  evaluate_detailed-Runs :
      (c : Compiled F) (o : Observation F) (s : FeatureState F)
      → validate c.rule ≡ none
      → Runs (evaluate_detailed c o s)
  unfolding evaluate_detailed
  evaluate_detailed-Runs c o s h =
      Runs->>= (evaluate c.rule o s) _ (record { defined = evaluate_safe o s c.rule h })
        (λ r. Runs-some _)

  evaluate_definitions-Runs :
      (p : PartitionRuntime F) (now : Time) (key : String) (o : Observation F) (s : FeatureState F)
      (cs : List (CompiledDefinition F)) (b : Batch F)
      → AllCompiled cs
      → Runs (evaluate_definitions p now key o s cs b)
  unfolding evaluate_definitions
  evaluate_definitions-Runs p now key o s [] b h = Runs-some _
  evaluate_definitions-Runs p now key o s (c ∷ cs) b (v, h) =
      Runs-if (applies c o) _ _
        (Runs->>= (evaluate_detailed c.rule o s) _ (evaluate_detailed-Runs c.rule o s v) (λ r.
          evaluate_definitions-Runs p now key o s cs (conclude p now key o c.definition r b) h))
        (evaluate_definitions-Runs p now key o s cs b h)

  rebuild_definitions-Runs :
      (p : PartitionRuntime F) (key : String) (o : Observation F) (s : FeatureState F)
      (cs : List (CompiledDefinition F)) (b : Batch F)
      → AllCompiled cs
      → Runs (rebuild_definitions p key o s cs b)
  unfolding rebuild_definitions
  rebuild_definitions-Runs p key o s [] b h = Runs-some _
  rebuild_definitions-Runs p key o s (c ∷ cs) b (v, h) =
      Runs-if _ _ _
        (Runs->>= (evaluate_detailed c.rule o s) _ (evaluate_detailed-Runs c.rule o s v)
          (λ r. rebuild_definitions-Runs p key o s cs _ h))
        (rebuild_definitions-Runs p key o s cs b h)

  module _ (routes : Routes F) (valid : AreCompiled routes) (p : PartitionRuntime F)
      (now : Time) where
    accept_reset-Runs : (o : Observation F) (b : Batch F) → Runs (accept_reset routes p o b)
    unfolding accept_reset
    accept_reset-Runs o b =
        Runs->>=
          (rebuild_definitions p (series_key o.series) o (rebuild_features empty_features o.history)
            (definitions_for routes o.series) _)
          _
          (rebuild_definitions-Runs p (series_key o.series) o
            (rebuild_features empty_features o.history) (definitions_for routes o.series) _
            (definitions_for-AllCompiled routes o.series valid))
          (λ t. Runs-some {A = Batch F} _)

    accept_frame-Runs : (o : Observation F) (b : Batch F) → Runs (accept_frame routes p now o b)
    unfolding accept_frame
    accept_frame-Runs o b =
        let key = series_key o.series in
        let s = series_state_of p key b in
        let w = with_zones o s in
        Runs->>=
          (evaluate_definitions p now key w (features_for w s) (definitions_for routes w.series) b)
          _
          (evaluate_definitions-Runs p now key w (features_for w s)
            (definitions_for routes w.series) b (definitions_for-AllCompiled routes w.series valid))
          (λ t. Runs-some {A = Batch F} _)

    step-Runs : (o : Observation F) (b : Batch F) → Runs (step routes p now o b)
    unfolding step
    step-Runs o b =
        let s = series_state_of p (series_key o.series) b in
        let skipped : Option (Batch F) = some (record b { metrics = count_stale b.metrics }) in
        let accepted : Option (Batch F) =
          if o.reset then accept_reset routes p o b else accept_frame routes p now o b in
        let fresh : Option (Batch F) = if not o.reset && stale o s then skipped else accepted in
        Runs-if (o.reset && stale_reset o s) skipped fresh (Runs-some _) (
          Runs-if (not o.reset && stale o s) skipped accepted (Runs-some _) (
            Runs-if o.reset (accept_reset routes p o b) (accept_frame routes p now o b)
              (accept_reset-Runs o b) (accept_frame-Runs o b)))

    run_steps-Runs :
        (count id : ℕ) (os : List (Observation F)) (b : Batch F)
        → Runs (run_steps count id routes p now os b)
    unfolding run_steps
    run_steps-Runs count id [] b = Runs-some _
    run_steps-Runs count id (o ∷ os) b =
        Runs-if _ _ _
          (Runs->>= (step routes p now o b) _ (step-Runs o b) (λ t. run_steps-Runs count id os t))
          (Runs-some _)

  module _ {S : Type 0} (repo : Repository F S) where
    pub evaluate_batch-Runs :
        (e : Engine F) (s : S) (id : ℤ) (now : Time) (os : List (Observation F))
        → AreCompiled e.by_route
        → Runs (evaluate_batch repo e s id now os)
    unfolding evaluate_batch
    evaluate_batch-Runs e s (negsuc n) now os h = Runs-some _
    evaluate_batch-Runs e s (pos id) now os h = inside (get_elem? e.partitions id)
      where
        inside : (p : Option (PartitionRuntime F)) → Runs (evaluate_in repo e s id now os p)
        inside none = Runs-some _
        inside (some p) =
            Runs-if _ _ _
              (Runs->>= _ _ (run_steps-Runs e.by_route h p now (length e.partitions) id os _)
                (λ r. Runs-some _))
              (Runs-some _)
