-- ===== src/Rules/Evaluate/Dependencies.antt =====
-- The dependency mask of a rule covers all that evaluate reads.
use alerts.Common.{
  ◌≡◌, refl, ap, String, Bool, true, false, Option, none, some, List, ◌∷◌, arith, ◌>>=◌,
}
use alerts.Model.{
  Float64, Platform, Observation, RuleFields, Rule, node, Rules, no_rules, rules, RulePointer, nil,
  pointer, FeatureState,
}
use alerts.Rules.Kinds.{
  RuleType, negation, price_hits_zone, zone_transition, price_near_zone, price_crosses_indicator,
  candle_color, candle_streak, candle_color_flip, pattern, unsupported, rule_type, Dependency, join,
  dependencies_of, dependencies, dependencies_rules, dependencies_pointer,
}
use alerts.Common.Int.{ℤ}
use alerts.Rules.Timeframe.{timeframe_duration}
use alerts.Rules.Results.{RuleResult}
use alerts.Rules.Facts.{zone_case, near_case, pattern_case, candle_color_of}
use alerts.Rules.Temporal.{
  streak_case, flip_case, flip_after, percent_elapsed, cross_case, color_case,
}
use alerts.Rules.Evaluate.{evaluate_case, evaluate, evaluate_rules, evaluate_pointer}

-- Two inputs agree on what a mask names. Its candle bit stands for all that describes the current bar
-- and the colour that it had before.
pub record Agrees {F : Type 0} (d : Dependency) (o p : Observation F) (s t : FeatureState F)
    : Type 0 where
  pub same_candle : d.candle ≡ true → o.candle ≡ p.candle
  pub same_status : d.candle ≡ true → o.status ≡ p.status
  pub same_time : d.candle ≡ true → o.occurred_at ≡ p.occurred_at
  pub same_series : d.candle ≡ true → o.series ≡ p.series
  pub same_forming_bar : d.candle ≡ true → s.forming_bar ≡ t.forming_bar
  pub same_forming_color : d.candle ≡ true → s.forming_color ≡ t.forming_color
  pub same_indicators : d.indicator ≡ true → o.indicators ≡ p.indicators
  pub same_values : d.indicator ≡ true → s.indicators ≡ t.indicators
  pub same_transitions : d.zone ≡ true → o.zone_transitions ≡ p.zone_transitions
  pub same_zones : d.zone ≡ true → o.active_zones ≡ p.active_zones
  pub same_patterns : d.pattern ≡ true → o.patterns ≡ p.patterns
  pub same_close : d.history ≡ true → s.last_close ≡ t.last_close
  pub same_colors : d.history ≡ true → s.candle_colors ≡ t.candle_colors

cons_agree {ℓ} :
    {A : Type ℓ} (a b : Option A) (x y : Option (List A))
    → a ≡ b
    → x ≡ y
    → (a >>= λ c. x >>= λ cs. some (c ∷ cs)) ≡ (b >>= λ c. y >>= λ cs. some (c ∷ cs))
cons_agree a b x y e f = rw (e, f)

module _ {F : Type 0} ⦃fl : Float64 F⦄ (o p : Observation F) (s t : FeatureState F) where
  -- A smaller mask asks for less.
  Agrees-join : (a b : Dependency) → Agrees (join a b) o p s t → Agrees a o p s t × Agrees b o p s t
  Agrees-join a b h = ground arith

  zone_case_agree :
      (b : Bool) (f : RuleFields F)
      → o.zone_transitions ≡ p.zone_transitions
      → zone_case b f o ≡ zone_case b f p
  unfolding zone_case
  zone_case_agree b f e = cc

  near_case_agree :
      (f : RuleFields F)
      → o.candle ≡ p.candle
      → o.active_zones ≡ p.active_zones
      → near_case f o ≡ near_case f p
  unfolding near_case
  near_case_agree f c e = cc

  pattern_case_agree :
      (f : RuleFields F) → o.patterns ≡ p.patterns → pattern_case f o ≡ pattern_case f p
  unfolding pattern_case
  pattern_case_agree f e = cc

  color_case_agree : (f : RuleFields F) → o.candle ≡ p.candle → color_case f o ≡ color_case f p
  unfolding color_case
  color_case_agree f e = cc

  streak_case_agree :
      (f : RuleFields F)
      → o.candle ≡ p.candle
      → s.candle_colors ≡ t.candle_colors
      → streak_case f o s ≡ streak_case f p t
  unfolding streak_case
  streak_case_agree f e c = cc

  cross_case_agree :
      (f : RuleFields F)
      → o.candle ≡ p.candle
      → o.indicators ≡ p.indicators
      → s.indicators ≡ t.indicators
      → s.last_close ≡ t.last_close
      → cross_case f o s ≡ cross_case f p t
  unfolding cross_case
  cross_case_agree f c i v l = cc

  flip_after_agree :
      (f : RuleFields F) (from to : String) (d : Option ℤ)
      → o.candle ≡ p.candle
      → o.occurred_at ≡ p.occurred_at
      → flip_after f o from to d ≡ flip_after f p from to d
  unfolding flip_after percent_elapsed
  flip_after_agree f from to none c w = refl
  flip_after_agree f from to (some d) c w = cc

  module _ ⦃pl : Platform F⦄ where
    flip_case_agree :
        (f : RuleFields F)
        → o.candle ≡ p.candle
        → o.status ≡ p.status
        → o.occurred_at ≡ p.occurred_at
        → o.series ≡ p.series
        → s.forming_bar ≡ t.forming_bar
        → s.forming_color ≡ t.forming_color
        → flip_case f o s ≡ flip_case f p t
    unfolding flip_case
    flip_case_agree f c u w v b k = cc (
        flip_after_agree f s.forming_color (candle_color_of o.candle)
          (timeframe_duration pl.parse_duration o.series.timeframe) c w)

    evaluate_case_agree :
        (k : RuleType) (f : RuleFields F) (x y : Dependency)
        (results results' : Option (List (RuleResult F))) (result result' : Option (RuleResult F))
        → Agrees (dependencies_of k x y) o p s t
        → (Agrees y o p s t → results ≡ results')
        → (Agrees x o p s t → result ≡ result')
        → evaluate_case k f o s results result ≡ evaluate_case k f p t results' result'
    unfolding evaluate_case dependencies_of
    evaluate_case_agree RuleType.all f x y results results' result result' h a b = rw (a h)
    evaluate_case_agree RuleType.any f x y results results' result result' h a b = rw (a h)
    evaluate_case_agree negation f x y results results' result result' h a b = rw (b h)
    evaluate_case_agree price_hits_zone f x y results results' result result' h a b =
        ap some (zone_case_agree true f (h.same_transitions refl))
    evaluate_case_agree zone_transition f x y results results' result result' h a b =
        ap some (zone_case_agree false f (h.same_transitions refl))
    evaluate_case_agree price_near_zone f x y results results' result result' h a b =
        ap some (near_case_agree f (h.same_candle refl) (h.same_zones refl))
    evaluate_case_agree price_crosses_indicator f x y results results' result result' h a b =
        ap some (
          cross_case_agree f (h.same_candle refl) (h.same_indicators refl) (h.same_values refl)
            (h.same_close refl))
    evaluate_case_agree candle_color f x y results results' result result' h a b =
        ap some (color_case_agree f (h.same_candle refl))
    evaluate_case_agree candle_streak f x y results results' result result' h a b =
        streak_case_agree f (h.same_candle refl) (h.same_colors refl)
    evaluate_case_agree candle_color_flip f x y results results' result result' h a b = ap some (
        flip_case_agree f (h.same_candle refl) (h.same_status refl) (h.same_time refl)
          (h.same_series refl) (h.same_forming_bar refl) (h.same_forming_color refl))
    evaluate_case_agree pattern f x y results results' result result' h a b =
        ap some (pattern_case_agree f (h.same_patterns refl))
    evaluate_case_agree unsupported f x y results results' result result' h a b = refl

    mutual
      unfolding evaluate dependencies

      evaluate_agree_at :
          (r : Rule F) → Agrees (dependencies r) o p s t → evaluate r o s ≡ evaluate r p t
      evaluate_agree_at (node f children child) h =
          evaluate_case_agree (rule_type f.type) f (dependencies_pointer child)
            (dependencies_rules children) (evaluate_rules children o s)
            (evaluate_rules children p t) (evaluate_pointer child o s) (evaluate_pointer child p t)
            h (evaluate_rules_agree children) (evaluate_pointer_agree child)

      evaluate_rules_agree :
          (rs : Rules F)
          → Agrees (dependencies_rules rs) o p s t
          → evaluate_rules rs o s ≡ evaluate_rules rs p t
      evaluate_rules_agree no_rules h = refl
      evaluate_rules_agree (rules r rs) h =
          cons_agree (evaluate r o s) (evaluate r p t) (evaluate_rules rs o s)
            (evaluate_rules rs p t)
            (evaluate_agree_at r (Agrees-join (dependencies r) (dependencies_rules rs) h).0)
            (evaluate_rules_agree rs (Agrees-join (dependencies r) (dependencies_rules rs) h).1)

      evaluate_pointer_agree :
          (c : RulePointer F)
          → Agrees (dependencies_pointer c) o p s t
          → evaluate_pointer c o s ≡ evaluate_pointer c p t
      evaluate_pointer_agree nil h = refl
      evaluate_pointer_agree (pointer r) h = evaluate_agree_at r h

    -- Where two observations with their feature states agree on what the mask of a rule names, evaluate
    -- returns the same result for both, reasons and facts included.
    pub evaluate_agree :
        (r : Rule F) → Agrees (dependencies r) o p s t → evaluate r o s ≡ evaluate r p t
    evaluate_agree r h = evaluate_agree_at r h
