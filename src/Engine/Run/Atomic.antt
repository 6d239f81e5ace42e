-- ===== src/Engine/Run/Atomic.antt =====
-- What a batch may change: a batch that fails leaves the evaluator state of every partition alone.
use alerts.Common.{
  ℕ, zero, suc, ◌≡◌, refl, ap, Option, none, some, List, [], ◌∷◌, Result, ok, err, ◌>>=◌, length,
  get_elem?, Bool-cases, inl, inr,
}
use mathlib.Core.Path.{subst}
use mathlib.Core.Option.{some-injective}
use alerts.Common.Int.{ℤ, pos, negsuc}
use alerts.Model.{Float64, Platform, Time, Observation, Alert}
use alerts.Store.{StoreError, Repository}
use alerts.Engine.State.{PartitionRuntime, Engine}
use alerts.Engine.Partitions.{owns}
use alerts.Engine.Batch.{Batch, empty_batch}
use alerts.Engine.Run.{
  EngineError, store_failed, set_elem, publish_batch, run_steps, commit_batch, finish, evaluate_in,
  evaluate_batch, runtime_batch,
}

length-set_elem {ℓ} :
    {A : Type ℓ} (xs : List A) (i : ℕ) (x : A) → length (set_elem xs i x) ≡ length xs
unfolding set_elem
length-set_elem [] i x = refl
length-set_elem (y ∷ ys) zero x = refl
length-set_elem (y ∷ ys) (suc i) x = ap suc (length-set_elem ys i x)

module _ {F : Type 0} ⦃fl : Float64 F⦄ ⦃pl : Platform F⦄ {S : Type 0} (repo : Repository F S) where
  abbrev pub Outcome : Type 0
  Outcome = Engine F × S × Result EngineError (List (Alert F))

  -- What a call may do to an engine.
  abbrev pub Restrained : Engine F → Outcome → Type 0
  Restrained e (e', s', err x) = (e'.by_route ≡ e.by_route) × (e'.partitions ≡ e.partitions)
  Restrained e (e', s', ok alerts) =
      (e'.by_route ≡ e.by_route) × (length e'.partitions ≡ length e.partitions)

  module _ (s : S) (id : ℕ) (p : PartitionRuntime F) (b : Batch F) where
    commit_batch-Restrained : (e : Engine F) → Restrained e (commit_batch repo e s id p b)
    unfolding commit_batch
    commit_batch-Restrained e =
        let (s', outcome) = repo.commit_runtime_batch s (runtime_batch id b) in decided s' outcome
      where
        decided :
            (s' : S) (outcome : Result StoreError (List (Alert F)))
            → Restrained e (elim outcome [
              | err x ↦ (e, s', err (store_failed x))
              | ok committed ↦ (
                record e { partitions = set_elem e.partitions id (publish_batch b p) },
                s',
                ok committed,
              )
            ])
        decided s' (err x) = (refl, refl)
        decided s' (ok committed) = (refl, length-set_elem e.partitions id (publish_batch b p))

  finish-Restrained :
      (e : Engine F) (s : S) (id : ℕ) (p : PartitionRuntime F) (r : Batch F × Option EngineError)
      → Restrained e (finish repo e s id p r)
  unfolding finish
  finish-Restrained e s id p (b, some x) = (refl, refl)
  finish-Restrained e s id p (b, none) = counted b.accepted
    where
      counted :
          (os : List (Observation F))
          → Restrained e (elim os [
            | [] ↦ (record e { metrics = b.metrics }, s, ok [])
            | o ∷ os ↦ commit_batch repo (record e { metrics = b.metrics }) s id p b
          ])
      counted [] = (refl, refl)
      counted (o ∷ os) =
          lifted (commit_batch repo (record e { metrics = b.metrics }) s id p b)
            (commit_batch-Restrained s id p b (record e { metrics = b.metrics }))
        where
          lifted :
              (out : Outcome) → Restrained (record e { metrics = b.metrics }) out → Restrained e out
          lifted (e', s', err x) h = h
          lifted (e', s', ok alerts) h = h

  evaluate_in-Restrained :
      (e : Engine F) (s : S) (id : ℕ) (now : Time) (os : List (Observation F))
      (p : Option (PartitionRuntime F)) {out : Outcome}
      → evaluate_in repo e s id now os p ≡ some out
      → Restrained e out
  unfolding evaluate_in
  evaluate_in-Restrained e s id now os none h =
      subst (Restrained e) (some-injective _ _ h) (refl, refl)
  evaluate_in-Restrained e s id now os (some p) h =
      elim (Bool-cases (owns e.worker_index e.worker_count id)) [
        | inl q ↦
            ran (run_steps (length e.partitions) id e.by_route p now os (empty_batch e.metrics))
              (rw q at h)
        | inr q ↦ subst (Restrained e) (some-injective _ _ (rw q at h)) (refl, refl)
      ]
    where
      ran :
          (r : Option (Batch F × Option EngineError)) {out : Outcome}
          → (r >>= λ x. some (finish repo e s id p x)) ≡ some out
          → Restrained e out
      ran none k = cc
      ran (some x) k = subst (Restrained e) (some-injective _ _ k) (finish-Restrained e s id p x)

  -- A call of EvaluateBatch that returns an error leaves the state of every partition and the routes as
  -- they were, whatever part of the batch had been evaluated; one that returns alerts leaves the routes and
  -- the number of partitions.
  pub evaluate_batch_atomic :
      (e : Engine F) (s : S) (id : ℤ) (now : Time) (os : List (Observation F)) {out : Outcome}
      → evaluate_batch repo e s id now os ≡ some out
      → Restrained e out
  unfolding evaluate_batch
  evaluate_batch_atomic e s (negsuc n) now os h =
      subst (Restrained e) (some-injective _ _ h) (refl, refl)
  evaluate_batch_atomic e s (pos id) now os h =
      evaluate_in-Restrained e s id now os (get_elem? e.partitions id) h
