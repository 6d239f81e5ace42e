-- ===== src/Engine/Run/Reachable.antt =====
-- The life of an engine: what its operations can make of it, and that none of them leads to a panic.
use alerts.Common.{
  ℕ, ◌≡◌, refl, ◌∙◌, String, Bool, true, false, Option, none, some, List, [], ◌∷◌, if◌then◌else◌,
  Result, ok, err, is_some, length, get_elem?,
}
use mathlib.Core.Path.{subst, sym}
use alerts.Common.Int.{ℤ}
use alerts.Common.Dict.{Dict}
use alerts.Model.{
  Float64, Platform, Time, Observation, SeriesEvaluationState, DefinitionEvaluationState,
  AlertDefinition,
}
use alerts.Rules.Validate.{RuleError}
use alerts.Store.{StoreError, Repository, RuntimeSnapshot}
use alerts.Engine.State.{PartitionRuntime, Engine, new_with_ownership}
use alerts.Engine.Partitions.{owns, owned_partitions, partition_for_key, definition_series_key}
use alerts.Engine.Routes.{replace_definitions, upsert_definition, remove_definition}
use alerts.Engine.Routes.Validity.{
  AreCompiled, replace_definitions-AreCompiled, upsert_definition-AreCompiled,
  remove_definition-AreCompiled,
}
use alerts.Engine.Run.{
  EngineError, store_failed, not_compiled, evaluate_batch, set_elem, place, put_series,
  put_definition, load_series, load_definitions, load_snapshot, initialize,
}
use alerts.Engine.Run.Safety.{evaluate_batch-Runs}
use alerts.Engine.Run.Atomic.{Outcome, Restrained, evaluate_batch_atomic}

module _ {F : Type 0} ⦃fl : Float64 F⦄ ⦃pl : Platform F⦄ where
  place_routes :
      (key : String) (write : PartitionRuntime F → PartitionRuntime F) (e : Engine F)
      → (place key write e).by_route ≡ e.by_route
  unfolding place
  place_routes key write e =
      placed (owns e.worker_index e.worker_count (partition_for_key (length e.partitions) key))
        (get_elem? e.partitions (partition_for_key (length e.partitions) key))
    where
      placed :
          (b : Bool) (o : Option (PartitionRuntime F))
          → (let r : Engine F =
                if b
                then (elim o [
                  | none ↦ e
                  | some p ↦ record e {
                    partitions =
                        set_elem e.partitions
                          (partition_for_key (length e.partitions) key)
                          (write p);
                  }
                ])
                else e in
              r).by_route
            ≡ e.by_route
      placed true none = refl
      placed true (some p) = refl
      placed false o = refl

  load_series_routes :
      (d : Dict String (SeriesEvaluationState F)) (e : Engine F)
      → (load_series d e).by_route ≡ e.by_route
  unfolding load_series
  load_series_routes [] e = refl
  load_series_routes ((key, s) ∷ d) e =
      load_series_routes d (place key (λ p. put_series p key s) e) ∙ place_routes key _ e

  load_definitions_routes :
      (d : Dict String DefinitionEvaluationState) (e : Engine F)
      → (load_definitions d e).by_route ≡ e.by_route
  unfolding load_definitions
  load_definitions_routes [] e = refl
  load_definitions_routes ((key, s) ∷ d) e =
      load_definitions_routes d (place (definition_series_key key) (λ p. put_definition p key s) e)
      ∙ place_routes (definition_series_key key) _ e

  load_snapshot_routes :
      (e : Engine F) (r : Result StoreError (RuntimeSnapshot F))
      → (load_snapshot e r).0.by_route ≡ e.by_route
  unfolding load_snapshot
  load_snapshot_routes e (err x) = refl
  load_snapshot_routes e (ok snapshot) =
      load_definitions_routes snapshot.definitions (load_series snapshot.series e)
      ∙ load_series_routes snapshot.series e

  module _ {S : Type 0} (repo : Repository F S) where
    initialize-AreCompiled :
        (e : Engine F) (s : S) (now : Time)
        → AreCompiled e.by_route
        → AreCompiled (initialize repo e s now).0.by_route
    unfolding initialize
    initialize-AreCompiled e s now h = listed (repo.list_definitions s now)
      where
        replaced :
            (e' : Engine F) (r : Result (String × RuleError) (Unit {0}))
            → AreCompiled e'.by_route
            → AreCompiled
                (let out : Engine F × Result EngineError (Unit {0}) = elim r [
                  | err (id, x) ↦ (e', err (not_compiled id x))
                  | ok _ ↦ load_snapshot e' (repo.load_runtime_states s (owned_partitions e'))
                ] in
                  out).0.by_route
        replaced e' (err (id, x)) k = k
        replaced e' (ok _) k =
            subst AreCompiled
              (sym (load_snapshot_routes e' (repo.load_runtime_states s (owned_partitions e')))) k

        listed :
            (l : Result StoreError (List (AlertDefinition F)))
            → AreCompiled
                (let out : Engine F × Result EngineError (Unit {0}) = elim l [
                  | err x ↦ (e, err (store_failed x))
                  | ok ds ↦
                      let (e', outcome) = replace_definitions ds now e in
                      elim outcome [
                        | err (id, x) ↦ (e', err (not_compiled id x))
                        | ok _ ↦ load_snapshot e' (repo.load_runtime_states s (owned_partitions e'))
                      ]
                ] in
                  out).0.by_route
        listed (err x) = h
        listed (ok ds) =
            let (e', outcome) = replace_definitions ds now e in
            replaced e' outcome (replace_definitions-AreCompiled ds now e h)

    -- The engines that the operations of the package build, in any order, over a repository that others
    -- may change at any time.
    pub data Reachable : Engine F → Type 0 where
      start : (n i k : ℕ) → Reachable (new_with_ownership n i k)
      initialized :
          {e : Engine F}
          → Reachable e
          → (s : S) (now : Time) → Reachable (initialize repo e s now).0
      replaced :
          {e : Engine F}
          → Reachable e
          → (ds : List (AlertDefinition F)) (now : ℕ) → Reachable (replace_definitions ds now e).0
      upserted :
          {e : Engine F}
          → Reachable e
          → (d : AlertDefinition F) → Reachable (upsert_definition d e).0
      removed : {e : Engine F} → Reachable e → (id : String) → Reachable (remove_definition id e)
      evaluated :
          {e : Engine F}
          → Reachable e
          → (s : S) (id : ℤ) (now : Time) (os : List (Observation F)) (out : Outcome repo)
          → evaluate_batch repo e s id now os ≡ some out
          → Reachable out.0

    Restrained-AreCompiled :
        (e : Engine F) (out : Outcome repo)
        → Restrained repo e out
        → AreCompiled e.by_route
        → AreCompiled out.0.by_route
    Restrained-AreCompiled e (e', s', err x) r h = subst AreCompiled (sym r.0) h
    Restrained-AreCompiled e (e', s', ok alerts) r h = subst AreCompiled (sym r.0) h

    Reachable-AreCompiled : {e : Engine F} → Reachable e → AreCompiled e.by_route
    unfolding new_with_ownership
    Reachable-AreCompiled (start n i k) = tt
    Reachable-AreCompiled (initialized {e = e} r s now) =
        initialize-AreCompiled e s now (Reachable-AreCompiled r)
    Reachable-AreCompiled (replaced {e = e} r ds now) =
        replace_definitions-AreCompiled ds now e (Reachable-AreCompiled r)
    Reachable-AreCompiled (upserted {e = e} r d) =
        upsert_definition-AreCompiled d e (Reachable-AreCompiled r)
    Reachable-AreCompiled (removed {e = e} r id) =
        remove_definition-AreCompiled id e (Reachable-AreCompiled r)
    Reachable-AreCompiled (evaluated {e = e} r s id now os out h) =
        Restrained-AreCompiled e out (evaluate_batch_atomic repo e s id now os h)
          (Reachable-AreCompiled r)

    -- For every engine that the operations of the package make, in any order, EvaluateBatch returns on every
    -- partition number and every batch: no rule that it evaluates makes it panic, and none runs for ever.
    pub evaluate_batch_safe :
        {e : Engine F}
        → Reachable e
        → (s : S) (id : ℤ) (now : Time) (os : List (Observation F))
        → is_some (evaluate_batch repo e s id now os) ≡ true
    evaluate_batch_safe {e} r s id now os =
        (evaluate_batch-Runs repo e s id now os (Reachable-AreCompiled r)).defined
