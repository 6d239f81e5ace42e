-- ===== src/Engine/Policy.antt =====
-- The rules of time, order and trigger in internal/runtime/engine.go.
pub mod Order
pub mod Triggers
use alerts.Common.{
  ℕ, String, Bool, true, false, not, ◌&&◌, ◌||◌, ltb, leb, ◌==◌, nat_eq, string_eq, if◌then◌else◌,
}
use alerts.Common.Int.{ℤ, pos, ltb_ℤ, sub_time, wrap_64, scale, second}
use alerts.Model.{
  Time, is_zero, Observation, AlertDefinition, SeriesEvaluationState, DefinitionEvaluationState,
}
use alerts.Rules.Kinds.{pulse}

unfoldable pub effective_at : {F : Type 0} → AlertDefinition F → Time
effective_at d = if not (is_zero d.effective_at) then d.effective_at else d.created_at

unfoldable pub definition_enabled_at : {F : Type 0} → AlertDefinition F → Time → Bool
unfolding effective_at
definition_enabled_at d event_time =
    if d.enabled then not (ltb event_time (effective_at d)) else ltb event_time (effective_at d)

unfoldable pub accepts_mode : String → String → Bool
accepts_mode mode status =
    if mode == "confirmed_close"
    then status == "confirmed"
    else if mode == "intrabar"
    then status == "provisional"
    else status == "confirmed" || status == "provisional"

unfoldable pub status_rank : String → ℕ
status_rank status = if status == "confirmed" then 2 else 1

-- The order of frames against the last one accepted: opening time, revision, rank of the status.
unfoldable pub stale_after : {F : Type 0} → Observation F → Time → ℕ → String → Bool
unfolding status_rank
stale_after o last_open_time last_revision last_status =
    if is_zero last_open_time
    then false
    else if ltb o.candle.open_time last_open_time
    then true
    else if ltb last_open_time o.candle.open_time
    then false
    else if ltb o.revision last_revision
    then true
    else if ltb last_revision o.revision
    then false
    else leb (status_rank o.status) (status_rank last_status)

unfoldable pub stale : {F : Type 0} → Observation F → SeriesEvaluationState F → Bool
unfolding stale_after
stale o s = stale_after o s.last_open_time s.last_revision s.last_status

-- A reset that has been applied, or is older than the last one.
unfoldable pub stale_reset : {F : Type 0} → Observation F → SeriesEvaluationState F → Bool
stale_reset o s =
    o.source_event_id == s.last_reset_id
    || (not (is_zero s.last_reset_at) && not (ltb s.last_reset_at o.occurred_at))

unfoldable pub should_trigger : String → Bool → Bool → Time → Time → Bool → Bool
should_trigger mode truth is_pulse open_time last_alert_bar last_truth =
    if not truth
    then false
    else if mode == "every_match"
    then true
    else if mode == "once_per_bar"
    then is_zero last_alert_bar || not (last_alert_bar == open_time)
    else is_pulse || not last_truth

-- time.Duration(cooldown) * time.Second has not passed since the last trigger.
unfoldable pub in_cooldown : ℤ → Time → Time → Bool
in_cooldown cooldown occurred_at last_trigger_at =
    ltb_ℤ (pos 0) cooldown
    && not (is_zero last_trigger_at)
    && ltb_ℤ (sub_time occurred_at last_trigger_at) (wrap_64 (scale cooldown second))

-- The truth that the mode of the observation saw last.
abbrev pub last_truth_of : String → DefinitionEvaluationState → Bool
last_truth_of status s =
    if status == "provisional" then s.last_truth_intrabar else s.last_truth_confirmed

unfoldable pub triggers :
    {F : Type 0} → AlertDefinition F → Observation F → Bool → DefinitionEvaluationState → Bool
unfolding should_trigger in_cooldown
triggers d o truth s =
    should_trigger d.trigger_mode truth (pulse d.rule) o.candle.open_time s.last_alert_bar
      (last_truth_of o.status s)
    && not (in_cooldown d.cooldown_seconds o.occurred_at s.last_trigger_at)

abbrev pub record_truth : String → Bool → DefinitionEvaluationState → DefinitionEvaluationState
record_truth status truth s =
    if status == "provisional"
    then record s { last_truth_intrabar = truth }
    else record s { last_truth_confirmed = truth }

-- The state of a definition after an evaluation.
unfoldable pub next_definition_state :
    {F : Type 0}
    → AlertDefinition F
    → Observation F
    → Bool
    → DefinitionEvaluationState
    → DefinitionEvaluationState
unfolding triggers
next_definition_state d o truth s =
    let t = record_truth o.status truth s in
    if triggers d o truth s
    then record t { last_trigger_at = o.occurred_at; last_alert_bar = o.candle.open_time }
    else t
