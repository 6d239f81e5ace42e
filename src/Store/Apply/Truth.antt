-- ===== src/Store/Apply/Truth.antt =====
-- What apply of internal/store/evaluate.go does to the state of a definition.
use alerts.Common.{
  ◌<◌, ◌≡◌, refl, inl, inr, String, Bool, true, false, Option, none, some, List, arith, nat_eq,
  string_eq, ◌>>=◌, Bool-cases, Result, ok, err,
}
use mathlib.Core.Path.{subst}
use mathlib.Core.Option.{some-injective}
use alerts.Model.{
  Float64, Platform, Time, FactReference, Observation, AlertDefinition, Alert, EvaluationState,
}
use alerts.Rules.Validate.{RuleError}
use alerts.Rules.Evaluate.{Compiled, compile, evaluate_detailed}
use alerts.Store.Apply.{
  Applied, stale, features_of, applied_trigger, apply_result, apply_compiled, apply,
}

module _ {F : Type 0} ⦃fl : Float64 F⦄ ⦃pl : Platform F⦄ (now : Time) (d : AlertDefinition F)
    (o : Observation F) (s : EvaluationState F) where
  -- What holds of the outcome: the last truth is the old one, and an accepted observation is the last one.
  abbrev Kept : Applied F → Type 0
  Kept (t, alert, accepted) =
      (t.last_truth ≡ s.last_truth)
      × (accepted ≡ true
          → (t.last_open_time ≡ o.candle.open_time)
            × (t.last_revision ≡ o.revision)
            × (t.last_status ≡ o.status))

  apply_result-Kept :
      (r : Bool × List String × List (FactReference F)) → Kept (apply_result now d o s r)
  unfolding apply_result
  apply_result-Kept (truth, reasons, facts) = elim (Bool-cases (applied_trigger d o truth s)) [
    | inl h ↦ rw h (refl, λ k. (refl, refl, refl))
    | inr h ↦ rw h (refl, λ k. (refl, refl, refl))
  ]

  refused-Kept : Kept (s, none, false)
  refused-Kept = (refl, λ k. cc)

  apply_compiled-Kept :
      (c : Result RuleError (Compiled F)) {out : Applied F}
      → apply_compiled now d o s c ≡ some out
      → Kept out
  unfolding apply_compiled
  apply_compiled-Kept (err x) h = subst Kept (some-injective _ _ h) refused-Kept
  apply_compiled-Kept (ok compiled) h = returned (evaluate_detailed compiled o (features_of s)) h
    where
      returned :
          (r : Option (Bool × List String × List (FactReference F))) {out : Applied F}
          → (r >>= λ x. some (apply_result now d o s x)) ≡ some out
          → Kept out
      returned none k = cc
      returned (some x) k = subst Kept (some-injective _ _ k) (apply_result-Kept x)

  apply-Kept : {out : Applied F} → apply now d o s ≡ some out → Kept out
  unfolding apply
  apply-Kept h = elim (Bool-cases (stale o s)) [
    | inl k ↦ subst Kept (some-injective _ _ (rw k at h)) refused-Kept
    | inr k ↦ apply_compiled-Kept (compile d.rule) (rw k at h)
  ]

  -- Whatever the truth of the rule, apply leaves the last truth of the state as it was.
  pub apply_keeps_truth :
      {t : EvaluationState F} {alert : Option (Alert F)} {accepted : Bool}
      → apply now d o s ≡ some (t, alert, accepted)
      → t.last_truth ≡ s.last_truth
  apply_keeps_truth h = (apply-Kept h).0

  same_position :
      (t : EvaluationState F)
      → 0 < o.candle.open_time
      → (t.last_open_time ≡ o.candle.open_time)
        × (t.last_revision ≡ o.revision)
        × (t.last_status ≡ o.status)
      → stale o t ≡ true
  unfolding stale
  same_position t z (a, b, c) = rw (a, b, c) (ground arith)

  -- An observation of a candle with an opening time that apply has accepted is refused the second time:
  -- the state stays and there is no alert.
  pub apply_once :
      {t : EvaluationState F} {alert : Option (Alert F)}
      → apply now d o s ≡ some (t, alert, true)
      → 0 < o.candle.open_time
      → (later : Time) → apply later d o t ≡ some (t, none, false)
  unfolding apply
  apply_once {t} {alert} h z later = rw (same_position t z ((apply-Kept h).1 refl))
