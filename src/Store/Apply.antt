-- ===== src/Store/Apply.antt =====
-- internal/store/evaluate.go: the evaluation of one definition by the repository itself.
-- The result is none where the evaluation of the rule panics.
pub mod Truth
use alerts.Common.{
  String, Bool, true, false, not, ◌&&◌, ◌||◌, Option, none, some, List, [], ◌∷◌, ltb, leb, ◌==◌,
  nat_eq, string_eq, if◌then◌else◌, ◌>>=◌, ℕ, Result, ok, err,
}
use alerts.Common.Int.{pos, ltb_ℤ, sub_time, wrap_64, scale, second}
use alerts.Model.{
  Float64, Platform, Time, is_zero, FactReference, Observation, AlertDefinition, Alert,
  FeatureState, EvaluationState,
}
use alerts.Rules.Validate.{RuleError}
use alerts.Rules.Kinds.{pulse}
use alerts.Rules.Evaluate.{Compiled, compile, evaluate_detailed}
use alerts.Rules.Advance.{advance}
use alerts.Engine.Identity.{deterministic_id}

status_rank : String → ℕ
status_rank status = if status == "confirmed" then 2 else 1

unfoldable pub stale : {F : Type 0} → Observation F → EvaluationState F → Bool
unfolding status_rank
stale o s =
    if is_zero s.last_open_time
    then false
    else if ltb o.candle.open_time s.last_open_time
    then true
    else if ltb s.last_open_time o.candle.open_time
    then false
    else if ltb o.revision s.last_revision
    then true
    else if ltb s.last_revision o.revision
    then false
    else leb (status_rank o.status) (status_rank s.last_status)

unfoldable pub should_trigger :
    {F : Type 0} → String → Bool → Bool → Observation F → EvaluationState F → Bool
should_trigger mode truth is_pulse o s =
    if not truth
    then false
    else if mode == "every_match"
    then true
    else if mode == "once_per_bar"
    then is_zero s.last_alert_bar || not (s.last_alert_bar == o.candle.open_time)
    else is_pulse || not s.last_truth

-- Whether the observation triggers, the cooldown included.
unfoldable pub applied_trigger :
    {F : Type 0} → AlertDefinition F → Observation F → Bool → EvaluationState F → Bool
unfolding should_trigger
applied_trigger d o truth s =
    should_trigger d.trigger_mode truth (pulse d.rule) o s
    && not (
        ltb_ℤ (pos 0) d.cooldown_seconds
        && not (is_zero s.last_trigger_at)
        && ltb_ℤ (sub_time o.occurred_at s.last_trigger_at)
            (wrap_64 (scale d.cooldown_seconds second)))

abbrev pub features_of : {F : Type 0} → EvaluationState F → FeatureState F
features_of s = record {
  last_close = s.last_close;
  indicators = s.indicators;
  candles = [];
  candle_colors = s.candle_colors;
  forming_bar = s.forming_bar;
  forming_color = s.forming_color;
}

abbrev pub advanced :
    {F : Type 0} → Observation F → FeatureState F → EvaluationState F → EvaluationState F
advanced o feature s = record s {
  last_close = feature.last_close;
  indicators = feature.indicators;
  candle_colors = feature.candle_colors;
  forming_bar = feature.forming_bar;
  forming_color = feature.forming_color;
  last_open_time = o.candle.open_time;
  last_revision = o.revision;
  last_status = o.status;
}

-- The state, the alert and whether the observation was accepted.
abbrev pub Applied : Type 0 → Type 0
Applied F = EvaluationState F × Option (Alert F) × Bool

module _ {F : Type 0} ⦃fl : Float64 F⦄ ⦃pl : Platform F⦄ where
  -- The alert, before the payload and the cursor are set.
  new_alert :
      Time → AlertDefinition F → Observation F → List String → List (FactReference F) → Alert F
  unfolding deterministic_id
  new_alert now d o reasons facts = record {
    schema = "io.ytstack.alert.triggered.v1";
    id = deterministic_id pl.sha256_hex (d.id ∷ o.source_event_id ∷ []);
    definition_id = d.id;
    definition_version = d.version;
    definition_hash = d.definition_hash;
    definition_name = d.name;
    source_event_id = o.source_event_id;
    source_candle_id = o.correlation_id;
    series = o.series;
    triggered_at = o.occurred_at;
    evaluated_at = now;
    reasons = reasons;
    facts_used = facts;
    feature_algorithm = o.feature_algorithm;
    source_revision = o.revision;
    source_status = o.status;
    observation = "";
    publish_status = "pending";
    cursor = 0;
  }

  unfoldable pub apply_result :
      Time
      → AlertDefinition F
      → Observation F
      → EvaluationState F
      → Bool × List String × List (FactReference F)
      → Applied F
  unfolding advance applied_trigger new_alert
  apply_result now d o s (truth, reasons, facts) =
      let t = advanced o (advance (features_of s) o) s in
      if applied_trigger d o truth s
      then (
        record t { last_trigger_at = o.occurred_at; last_alert_bar = o.candle.open_time },
        some (new_alert now d o reasons facts),
        true,
      )
      else (t, none, true)

  -- The definition's rule, compiled or refused.
  unfoldable pub apply_compiled :
      Time
      → AlertDefinition F
      → Observation F
      → EvaluationState F
      → Result RuleError (Compiled F)
      → Option (Applied F)
  unfolding evaluate_detailed apply_result
  apply_compiled now d o s (err x) = some (s, none, false)
  apply_compiled now d o s (ok compiled) =
      evaluate_detailed compiled o (features_of s) >>= λ r. some (apply_result now d o s r)

  -- apply, with the clock reading now
  unfoldable pub apply :
      Time → AlertDefinition F → Observation F → EvaluationState F → Option (Applied F)
  unfolding stale apply_compiled compile
  apply now d o s =
      if stale o s then some (s, none, false) else apply_compiled now d o s (compile d.rule)
