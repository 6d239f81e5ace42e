-- ===== src/Engine/Policy/Triggers.antt =====
-- What the trigger policy promises over a sequence of evaluations of one definition.
use alerts.Common.{
  ℕ, ◌+◌, ◌*◌, ◌^◌, ◌≤◌, ◌<◌, ◌≡◌, refl, ◌∙◌, ◌≢◌, ◌⊎◌, inl, inr, String, Bool, true, false, List,
  [], ◌∷◌, arith, ◌==◌, nat_eq, string_eq, if◌then◌else◌, Bool-cases,
}
use mathlib.Core.Path.{subst}
use alerts.Common.{str_beq}
use alerts.Common.Int.{pos, sub_time, wrap_64, scale, second}
use alerts.Model.{Time, Observation, AlertDefinition, DefinitionEvaluationState}
use native.Mathlib.Decide.{dec_lt}
use alerts.Rules.Kinds.{pulse}
use alerts.Engine.Policy.{
  should_trigger, in_cooldown, last_truth_of, triggers, record_truth, next_definition_state,
}

-- A cooldown of whole seconds that fits a time.Duration is not changed by the wrap-around.
wrap_64-scale : (n : ℕ) → n * second < 2 ^ 63 → wrap_64 (scale (pos n) second) ≡ pos (n * second)
unfolding wrap_64 scale
wrap_64-scale n h = ground arith

cooling :
    (n : ℕ) (t u : Time)
    → n * second < 2 ^ 63
    → 0 < u
    → u ≤ t
    → t < u + n * second
    → in_cooldown (pos n) t u ≡ true
unfolding in_cooldown sub_time
cooling n t u h z a b = rw (wrap_64-scale n h) (ground arith)

-- The evaluations of one definition: the frames, each with the truth of the rule.
abbrev pub Evaluations : Type 0 → Type 0
Evaluations F = List (Observation F × Bool)

-- The frames that trigger, in order.
unfoldable pub fired :
    {F : Type 0}
    → AlertDefinition F
    → DefinitionEvaluationState
    → Evaluations F
    → List (Observation F)
fired d s [] = []
fired d s ((o, truth) ∷ es) =
    let rest = fired d (next_definition_state d o truth s) es in
    if triggers d o truth s then o ∷ rest else rest

clash : {b : Bool} → b ≡ true → b ≡ false → ⊥
clash h k = cc

every_off : str_beq "once_per_bar" "every_match" ≡ false
unfolding str_beq
every_off = refl

bar_on : str_beq "once_per_bar" "once_per_bar" ≡ true
unfolding str_beq
bar_on = refl

-- What `once_per_bar` asks of a trigger.
new_bar :
    (mode : String) (truth is_pulse last : Bool) (t u : Time)
    → mode ≡ "once_per_bar"
    → should_trigger mode truth is_pulse t u last ≡ true
    → (u ≡ 0) ⊎ (u ≢ t)
unfolding should_trigger
new_bar mode truth is_pulse last t u e h = ground (arith, rw (e, every_off, bar_on) at h)

-- Without an edge the default mode of a rule that is no pulse does not trigger.
no_edge :
    (mode : String) (t u : Time)
    → (mode == "every_match") ≡ false
    → (mode == "once_per_bar") ≡ false
    → should_trigger mode true false t u true ≡ false
unfolding should_trigger
no_edge mode t u a b = rw (a, b)

record_truth_time :
    (st : String) (b : Bool) (s : DefinitionEvaluationState)
    → (record_truth st b s).last_trigger_at ≡ s.last_trigger_at
record_truth_time st b s = ground arith

record_truth_bar :
    (st : String) (b : Bool) (s : DefinitionEvaluationState)
    → (record_truth st b s).last_alert_bar ≡ s.last_alert_bar
record_truth_bar st b s = ground arith

record_truth_lem :
    (st : String) (b : Bool) (s : DefinitionEvaluationState)
    → last_truth_of st (record_truth st b s) ≡ b
record_truth_lem st b s = ground arith

last_truth_moved :
    (st : String) (s : DefinitionEvaluationState) (t u : Time)
    → last_truth_of st (record s { last_trigger_at = t; last_alert_bar = u }) ≡ last_truth_of st s
last_truth_moved st s t u = ground arith

module _ {F : Type 0} where
  -- Event times from m on that never go back.
  abbrev pub InTime : ℕ → Evaluations F → Type 0
  InTime m [] = Unit
  InTime m ((o, truth) ∷ es) = (0 < o.occurred_at) × (m ≤ o.occurred_at) × InTime o.occurred_at es

  -- Opening times from m on that never go back.
  abbrev pub InBars : ℕ → Evaluations F → Type 0
  InBars m [] = Unit
  InBars m ((o, truth) ∷ es) =
      (0 < o.candle.open_time) × (m ≤ o.candle.open_time) × InBars o.candle.open_time es

  -- Each frame comes at least gap after the one before; t is the time of the last one, 0 for none.
  abbrev pub SpacedFrom : ℕ → Time → List (Observation F) → Type 0
  SpacedFrom gap t [] = Unit
  SpacedFrom gap t (o ∷ os) =
      ((t ≡ 0) ⊎ (t + gap ≤ o.occurred_at)) × SpacedFrom gap o.occurred_at os

  -- Each frame is of a later bar than the one before.
  abbrev pub BarsAfter : Time → List (Observation F) → Type 0
  BarsAfter t [] = Unit
  BarsAfter t (o ∷ os) = (t < o.candle.open_time) × BarsAfter o.candle.open_time os

  module _ (d : AlertDefinition F) (o : Observation F) (truth : Bool)
      (s : DefinitionEvaluationState) where
    next_truth : last_truth_of o.status (next_definition_state d o truth s) ≡ truth
    unfolding next_definition_state
    next_truth = elim (Bool-cases (triggers d o truth s)) [
      | inl h ↦ rw h (
          last_truth_moved o.status (record_truth o.status truth s) o.occurred_at o.candle.open_time
          ∙ record_truth_lem o.status truth s)
      | inr h ↦ rw h (record_truth_lem o.status truth s)
    ]

    next_time :
        (next_definition_state d o truth s).last_trigger_at
        ≡ (if triggers d o truth s then o.occurred_at else s.last_trigger_at)
    unfolding next_definition_state
    next_time = elim (Bool-cases (triggers d o truth s)) [
      | inl h ↦ rw h
      | inr h ↦ rw h (record_truth_time o.status truth s)
    ]

    next_bar :
        (next_definition_state d o truth s).last_alert_bar
        ≡ (if triggers d o truth s then o.candle.open_time else s.last_alert_bar)
    unfolding next_definition_state
    next_bar = elim (Bool-cases (triggers d o truth s)) [
      | inl h ↦ rw h
      | inr h ↦ rw h (record_truth_bar o.status truth s)
    ]

    triggers_cooled :
        triggers d o truth s ≡ true
        → in_cooldown d.cooldown_seconds o.occurred_at s.last_trigger_at ≡ false
    unfolding triggers
    triggers_cooled h = ground arith

    triggers_new_bar :
        d.trigger_mode ≡ "once_per_bar"
        → triggers d o truth s ≡ true
        → (s.last_alert_bar ≡ 0) ⊎ (s.last_alert_bar ≢ o.candle.open_time)
    unfolding triggers
    triggers_new_bar e h =
        new_bar d.trigger_mode truth (pulse d.rule) (last_truth_of o.status s) o.candle.open_time
          s.last_alert_bar e (ground arith)

  module _ (d : AlertDefinition F) (n : ℕ) (fits : n * second < 2 ^ 63)
      (cooldown : d.cooldown_seconds ≡ pos n) where
    -- Whatever the truths, triggers of a definition keep a cooldown that fits a time.Duration: with event times that
    -- are not zero and never go back, from the last trigger of the given state on, each trigger comes at least the
    -- cooldown after the one before, that of the given state included.
    pub fired-SpacedFrom :
        (s : DefinitionEvaluationState) (es : Evaluations F) (m : Time)
        → s.last_trigger_at ≤ m
        → InTime m es
        → SpacedFrom (n * second) s.last_trigger_at (fired d s es)
    unfolding fired
    fired-SpacedFrom s [] m le h = tt
    fired-SpacedFrom s ((o, truth) ∷ es) m le (z, a, h) = elim (Bool-cases (triggers d o truth s)) [
      | inl t ↦
          let e : (next_definition_state d o truth s).last_trigger_at ≡ o.occurred_at =
            next_time d o truth s ∙ rw t in
          rw t (
            apart (rw cooldown at (triggers_cooled d o truth s t)),
            subst (λ t. SpacedFrom (n * second) t (fired d (next_definition_state d o truth s) es))
                e
                (fired-SpacedFrom (next_definition_state d o truth s) es o.occurred_at
                  (omega (arith, e)) h),
          )
      | inr t ↦
          let e : (next_definition_state d o truth s).last_trigger_at ≡ s.last_trigger_at =
            next_time d o truth s ∙ rw t in
          rw t (
            subst (λ t. SpacedFrom (n * second) t (fired d (next_definition_state d o truth s) es))
              e
              (fired-SpacedFrom (next_definition_state d o truth s) es o.occurred_at
                (omega (arith, e)) h))
    ]
      where
        apart :
            in_cooldown (pos n) o.occurred_at s.last_trigger_at ≡ false
            → (s.last_trigger_at ≡ 0) ⊎ (s.last_trigger_at + n * second ≤ o.occurred_at)
        apart k = elim (dec_lt o.occurred_at (s.last_trigger_at + n * second)) [
          | yes early ↦ elim (dec_lt 0 s.last_trigger_at) [
            | yes some_time ↦ absurd (
                clash (cooling n o.occurred_at s.last_trigger_at fits some_time (omega arith) early)
                  k)
            | no never ↦ inl (omega arith)
          ]
          | no late ↦ inr (omega arith)
        ]

  -- A definition that triggers once per bar triggers at most once for each bar, whatever the truths: with
  -- opening times that are not zero and never go back, from the last bar of the given state on, each trigger is of a later bar than the one before.
  pub fired-BarsAfter :
      (d : AlertDefinition F) (s : DefinitionEvaluationState) (es : Evaluations F) (m : Time)
      → d.trigger_mode ≡ "once_per_bar"
      → s.last_alert_bar ≤ m
      → InBars m es
      → BarsAfter s.last_alert_bar (fired d s es)
  unfolding fired
  fired-BarsAfter d s [] m mode le h = tt
  fired-BarsAfter d s ((o, truth) ∷ es) m mode le (z, a, h) =
      elim (Bool-cases (triggers d o truth s)) [
        | inl t ↦
            let e : (next_definition_state d o truth s).last_alert_bar ≡ o.candle.open_time =
              next_bar d o truth s ∙ rw t in
            rw t (
              later (triggers_new_bar d o truth s mode t),
              subst (λ t. BarsAfter t (fired d (next_definition_state d o truth s) es)) e
                  (fired-BarsAfter d (next_definition_state d o truth s) es o.candle.open_time mode
                    (omega (arith, e)) h),
            )
        | inr t ↦
            let e : (next_definition_state d o truth s).last_alert_bar ≡ s.last_alert_bar =
              next_bar d o truth s ∙ rw t in
            rw t (
              subst (λ t. BarsAfter t (fired d (next_definition_state d o truth s) es)) e
                (fired-BarsAfter d (next_definition_state d o truth s) es o.candle.open_time mode
                  (omega (arith, e)) h))
      ]
    where
      later :
          ((s.last_alert_bar ≡ 0) ⊎ (s.last_alert_bar ≢ o.candle.open_time))
          → s.last_alert_bar < o.candle.open_time
      later k = omega arith

  -- In the default mode a rule that is no pulse triggers on a rising edge only: after an evaluation that was
  -- true, another of the same status that is true as well does not trigger.
  pub no_second_trigger :
      (d : AlertDefinition F) (o o' : Observation F) (s : DefinitionEvaluationState)
      → (d.trigger_mode == "every_match") ≡ false
      → (d.trigger_mode == "once_per_bar") ≡ false
      → pulse d.rule ≡ false
      → o.status ≡ o'.status
      → triggers d o' true (next_definition_state d o true s) ≡ false
  unfolding triggers
  no_second_trigger d o o' s every once steady same =
      rw (← same, next_truth d o true s, steady, no_edge d.trigger_mode _ _ every once)
