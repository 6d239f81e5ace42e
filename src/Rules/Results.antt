-- ===== src/Rules/Results.antt =====
-- The `result` of internal/rules/evaluator.go, and how `all`, `any` and `not` combine results.
use alerts.Common.{
  String, ◌<>◌, Bool, true, not, ◌&&◌, ◌||◌, List, [], ◌∷◌, ◌++◌, ◌==◌, nat_eq, string_eq,
  if◌then◌else◌,
}
use alerts.Common.Int.{ℤ}
use alerts.Common.Text.{itoa}
use alerts.Model.{FactReference}

pub record RuleResult (F : Type 0) : Type 0 where
  pub matched : Bool
  pub known : Bool
  pub reasons : List String
  pub facts : List (FactReference F)

-- result{matched: m, known: k}
abbrev pub plain : {F : Type 0} → Bool → Bool → RuleResult F
plain m k = record { matched = m; known = k; reasons = []; facts = [] }

-- result{matched: true, known: true, reasons: …, facts: …}
abbrev pub hit : {F : Type 0} → String → List (FactReference F) → RuleResult F
hit reason facts = record { matched = true; known = true; reasons = reason ∷ []; facts = facts }

unfoldable pub indicator_key : String → ℤ → String
indicator_key name period = name <> ":" <> itoa period

-- The body of the loop of an `all` rule.
unfoldable pub all_step : {F : Type 0} → RuleResult F → RuleResult F → RuleResult F
all_step out r = record {
  matched = out.matched && r.matched;
  known = out.known && r.known;
  reasons = if r.matched then out.reasons ++ r.reasons else out.reasons;
  facts = if r.matched then out.facts ++ r.facts else out.facts;
}

-- The body of the loop of an `any` rule.
unfoldable pub any_step : {F : Type 0} → RuleResult F → RuleResult F → RuleResult F
any_step out r = record {
  matched = out.matched || (r.known && r.matched);
  known = out.known || r.known;
  reasons = if r.matched then out.reasons ++ r.reasons else out.reasons;
  facts = if r.matched then out.facts ++ r.facts else out.facts;
}

unfoldable pub all_loop : {F : Type 0} → RuleResult F → List (RuleResult F) → RuleResult F
all_loop out [] = out
all_loop out (r ∷ rs) = all_loop (all_step out r) rs

unfoldable pub any_loop : {F : Type 0} → RuleResult F → List (RuleResult F) → RuleResult F
any_loop out [] = out
any_loop out (r ∷ rs) = any_loop (any_step out r) rs

unfoldable pub negate : {F : Type 0} → RuleResult F → RuleResult F
negate r = record r { matched = not r.matched; facts = if r.matched then r.facts else [] }

abbrev pub side_matches : String → String → Bool
side_matches wanted side = wanted == "" || side == wanted

-- The transition that a zone rule waits for.
unfoldable pub wanted_transition : Bool → String → String
wanted_transition is_hit t = if t == "" && is_hit then "touched" else t
