-- ===== src/Rules/Kinds.antt =====
-- The rule types of internal/rules/evaluator.go: the case that a `switch` on rule.Type takes, the
-- walks over a rule that ask about types alone, and the dependency mask.
use alerts.Common.{String, Bool, true, false, not, ◌&&◌, ◌||◌, ◌==◌, string_eq, if◌then◌else◌}
use alerts.Model.{Rule, node, Rules, no_rules, rules, RulePointer, nil, pointer}

-- The strings that are cases of a switch on rule.Type; `unsupported` stands for any other string.
pub data RuleType : Type 0 where
  all any negation price_hits_zone zone_transition price_near_zone price_crosses_indicator :
      RuleType
  candle_color candle_streak candle_color_flip pattern unsupported : RuleType

unfoldable pub rule_type : String → RuleType
rule_type s =
    if s == "all"
    then all
    else if s == "any"
    then any
    else if s == "not"
    then negation
    else if s == "price_hits_zone"
    then price_hits_zone
    else if s == "zone_transition"
    then zone_transition
    else if s == "price_near_zone"
    then price_near_zone
    else if s == "price_crosses_indicator"
    then price_crosses_indicator
    else if s == "candle_color"
    then candle_color
    else if s == "candle_streak"
    then candle_streak
    else if s == "candle_color_flip"
    then candle_color_flip
    else if s == "pattern"
    then pattern
    else unsupported

abbrev is_flip : RuleType → Bool
is_flip candle_color_flip = true
is_flip _ = false

abbrev is_negation : RuleType → Bool
is_negation negation = true
is_negation _ = false

abbrev pub is_set : {F : Type 0} → RulePointer F → Bool
is_set nil = false
is_set (pointer _) = true

unfoldable mutual
  pub requires_intrabar : {F : Type 0} → Rule F → Bool
  requires_intrabar (node f children child) =
      let through = requires_intrabar_pointer child in
      let among = requires_intrabar_rules children in
      if is_flip (rule_type f.type)
      then true
      else if is_negation (rule_type f.type) && is_set child
      then through
      else among

  requires_intrabar_rules : {F : Type 0} → Rules F → Bool
  requires_intrabar_rules no_rules = false
  requires_intrabar_rules (rules r rs) = requires_intrabar r || requires_intrabar_rules rs

  requires_intrabar_pointer : {F : Type 0} → RulePointer F → Bool
  requires_intrabar_pointer nil = false
  requires_intrabar_pointer (pointer r) = requires_intrabar r

-- A type whose truth is an occurrence on one observation.
abbrev pulse_type : RuleType → Bool → Bool
pulse_type price_hits_zone among = true
pulse_type zone_transition among = true
pulse_type price_crosses_indicator among = true
pulse_type pattern among = true
pulse_type candle_color_flip among = true
pulse_type all among = among
pulse_type any among = among
pulse_type _ among = false

unfoldable mutual
  pub pulse : {F : Type 0} → Rule F → Bool
  pulse (node f children child) = pulse_type (rule_type f.type) (pulse_rules children)

  pulse_rules : {F : Type 0} → Rules F → Bool
  pulse_rules no_rules = false
  pulse_rules (rules r rs) = pulse r || pulse_rules rs

-- The bits of Dependency.
pub record Dependency : Type 0 where
  pub candle : Bool
  pub indicator : Bool
  pub zone : Bool
  pub pattern : Bool
  pub history : Bool

abbrev pub no_dependency : Dependency
no_dependency = record {
  candle = false;
  indicator = false;
  zone = false;
  pattern = false;
  history = false;
}

-- a | b
abbrev pub join : Dependency → Dependency → Dependency
join a b = record {
  candle = a.candle || b.candle;
  indicator = a.indicator || b.indicator;
  zone = a.zone || b.zone;
  pattern = a.pattern || b.pattern;
  history = a.history || b.history;
}

-- dependencies & (DependencyCandle | DependencyIndicator) == 0
abbrev pub ignores_candle : Dependency → Bool
ignores_candle d = not (d.candle || d.indicator)

unfoldable pub dependencies_of : RuleType → Dependency → Dependency → Dependency
dependencies_of candle_color through among = record no_dependency { candle = true }
dependencies_of candle_color_flip through among = record no_dependency { candle = true }
dependencies_of candle_streak through among = record no_dependency { candle = true; history = true }
dependencies_of price_crosses_indicator through among = record no_dependency {
  candle = true;
  indicator = true;
  history = true;
}
dependencies_of price_hits_zone through among = record no_dependency { zone = true }
dependencies_of zone_transition through among = record no_dependency { zone = true }
dependencies_of price_near_zone through among = record no_dependency { candle = true; zone = true }
dependencies_of pattern through among = record no_dependency { pattern = true }
dependencies_of negation through among = through
dependencies_of _ through among = among

unfoldable mutual
  unfolding dependencies_of

  pub dependencies : {F : Type 0} → Rule F → Dependency
  dependencies (node f children child) =
      dependencies_of (rule_type f.type) (dependencies_pointer child) (dependencies_rules children)

  pub dependencies_rules : {F : Type 0} → Rules F → Dependency
  dependencies_rules no_rules = no_dependency
  dependencies_rules (rules r rs) = join (dependencies r) (dependencies_rules rs)

  pub dependencies_pointer : {F : Type 0} → RulePointer F → Dependency
  dependencies_pointer nil = no_dependency
  dependencies_pointer (pointer r) = dependencies r
