-- ===== src/Rules/Evaluate/Verdict.antt =====
-- evaluate computes a three-valued reading of a rule: its known and matched flags are compositional.
use alerts.Common.{
  ◌≡◌, refl, sym, ◌∙◌, ap, Bool, true, false, Option, none, some, List, [], ◌∷◌, arith, ◌>>=◌,
}
use alerts.Model.{
  Float64, Platform, Observation, RuleFields, Rule, node, Rules, no_rules, rules, RulePointer, nil,
  pointer, FeatureState,
}
use alerts.Rules.Kinds.{RuleType, negation, rule_type}
use alerts.Rules.Results.{RuleResult, plain, all_loop, all_step, any_loop, any_step, negate}
use alerts.Rules.Evaluate.{evaluate_case, evaluate, evaluate_rules, evaluate_pointer}

-- What a rule says of an observation. Without the facts that it needs it says nothing.
pub data Verdict : Type 0 where
  unknown absent present : Verdict

abbrev pub verdict_of : Bool → Bool → Verdict
verdict_of true true = present
verdict_of true false = absent
verdict_of false matched = unknown

abbrev pub verdict : {F : Type 0} → RuleResult F → Verdict
verdict r = verdict_of r.known r.matched

-- One unknown child makes the conjunction unknown.
abbrev pub meet : Verdict → Verdict → Verdict
meet unknown w = unknown
meet absent unknown = unknown
meet absent absent = absent
meet absent present = absent
meet present w = w

-- Unknown children do not count in the disjunction.
abbrev pub join : Verdict → Verdict → Verdict
join unknown w = w
join absent unknown = absent
join absent w = w
join present w = present

abbrev pub invert : Verdict → Verdict
invert unknown = unknown
invert absent = present
invert present = absent

abbrev pub is_present : Verdict → Bool
is_present present = true
is_present _ = false

abbrev pub meet_all : List Verdict → Verdict
meet_all [] = present
meet_all (v ∷ vs) = meet v (meet_all vs)

abbrev pub join_all : List Verdict → Verdict
join_all [] = unknown
join_all (v ∷ vs) = join v (join_all vs)

-- The reading of a rule, given how a rule without children reads.
meaning_case : RuleType → Option Verdict → Option (List Verdict) → Option Verdict → Option Verdict
meaning_case RuleType.all alone among through = among >>= λ vs. some (meet_all vs)
meaning_case RuleType.any alone among through = among >>= λ vs. some (join_all vs)
meaning_case negation alone among through = through >>= λ v. some (invert v)
meaning_case _ alone among through = alone

abbrev pub option_map {ℓ κ} : {A : Type ℓ} {B : Type κ} → (A → B) → Option A → Option B
option_map f none = none
option_map f (some a) = some (f a)

module _ {F : Type 0} ⦃fl : Float64 F⦄ ⦃pl : Platform F⦄ where
  mutual
    unfolding meaning_case

    pub meaning : Rule F → Observation F → FeatureState F → Option Verdict
    meaning (node f children child) o s =
        meaning_case (rule_type f.type) (option_map verdict (evaluate (node f no_rules nil) o s))
          (meaning_rules children o s) (meaning_pointer child o s)

    meaning_rules : Rules F → Observation F → FeatureState F → Option (List Verdict)
    meaning_rules no_rules o s = some []
    meaning_rules (rules r rs) o s =
        meaning r o s >>= λ v. meaning_rules rs o s >>= λ vs. some (v ∷ vs)

    meaning_pointer : RulePointer F → Observation F → FeatureState F → Option Verdict
    meaning_pointer nil o s = none
    meaning_pointer (pointer r) o s = meaning r o s

abbrev verdicts : {F : Type 0} → List (RuleResult F) → List Verdict
verdicts [] = []
verdicts (r ∷ rs) = verdict r ∷ verdicts rs

meet_assoc : (u v w : Verdict) → meet (meet u v) w ≡ meet u (meet v w)
meet_assoc u v w = ground arith

join_assoc : (u v w : Verdict) → join (join u v) w ≡ join u (join v w)
join_assoc u v w = ground arith

meet_unit : (u : Verdict) → meet u present ≡ u
meet_unit u = ground arith

join_unit : (u : Verdict) → join u unknown ≡ u
join_unit u = ground arith

module _ {F : Type 0} where
  verdict-all_step :
      (out r : RuleResult F) → verdict (all_step out r) ≡ meet (verdict out) (verdict r)
  unfolding all_step
  verdict-all_step out r = ground arith

  verdict-any_step :
      (out r : RuleResult F)
      → (out.matched ≡ true → out.known ≡ true)
      → verdict (any_step out r) ≡ join (verdict out) (verdict r)
  unfolding any_step
  verdict-any_step out r h = ground arith

  any_step-known :
      (out r : RuleResult F)
      → (out.matched ≡ true → out.known ≡ true)
      → (any_step out r).matched ≡ true
      → (any_step out r).known ≡ true
  unfolding any_step
  any_step-known out r h = ground arith

  verdict-all_loop :
      (out : RuleResult F) (rs : List (RuleResult F))
      → verdict (all_loop out rs) ≡ meet (verdict out) (meet_all (verdicts rs))
  unfolding all_loop
  verdict-all_loop out [] = sym (meet_unit (verdict out))
  verdict-all_loop out (r ∷ rs) = cc (
    verdict-all_loop (all_step out r) rs,
    verdict-all_step out r,
    meet_assoc (verdict out) (verdict r) (meet_all (verdicts rs)),
  )

  verdict-any_loop :
      (out : RuleResult F) (rs : List (RuleResult F))
      → (out.matched ≡ true → out.known ≡ true)
      → verdict (any_loop out rs) ≡ join (verdict out) (join_all (verdicts rs))
  unfolding any_loop
  verdict-any_loop out [] h = sym (join_unit (verdict out))
  verdict-any_loop out (r ∷ rs) h = cc (
    verdict-any_loop (any_step out r) rs (any_step-known out r h),
    verdict-any_step out r h,
    join_assoc (verdict out) (verdict r) (join_all (verdicts rs)),
  )

  verdict-negate : (r : RuleResult F) → verdict (negate r) ≡ invert (verdict r)
  unfolding negate
  verdict-negate r = ground arith

verdicts_cons :
    {F : Type 0} (a : Option (RuleResult F)) (b : Option (List (RuleResult F))) {u : Option Verdict}
    {us : Option (List Verdict)}
    → option_map verdict a ≡ u
    → option_map verdicts b ≡ us
    → option_map verdicts (a >>= λ x. b >>= λ xs. some (x ∷ xs))
      ≡ (u >>= λ v. us >>= λ vs. some (v ∷ vs))
verdicts_cons none b p q = rw (← p)
verdicts_cons (some x) none p q = rw (← p, ← q)
verdicts_cons (some x) (some xs) p q = rw (← p, ← q)

module _ {F : Type 0} ⦃fl : Float64 F⦄ ⦃pl : Platform F⦄ (o : Observation F)
    (s : FeatureState F) where
  verdict-evaluate_case :
      (t : RuleType) (f : RuleFields F) (results : Option (List (RuleResult F)))
      (result : Option (RuleResult F))
      → option_map verdict (evaluate_case t f o s results result)
        ≡ meaning_case t
            (option_map verdict (evaluate_case t f o s (some []) none))
            (option_map verdicts results)
            (option_map verdict result)
  unfolding evaluate_case meaning_case
  verdict-evaluate_case RuleType.all f none result = refl
  verdict-evaluate_case RuleType.all f (some rs) result =
      ap some (verdict-all_loop (plain true true) rs)
  verdict-evaluate_case RuleType.any f none result = refl
  verdict-evaluate_case RuleType.any f (some rs) result =
      ap some (verdict-any_loop (plain false false) rs (λ h. h))
  verdict-evaluate_case negation f results none = refl
  verdict-evaluate_case negation f results (some r) = ap some (verdict-negate r)
  verdict-evaluate_case _ f results result = refl

  mutual
    unfolding meaning evaluate

    verdict-evaluate_at : (r : Rule F) → option_map verdict (evaluate r o s) ≡ meaning r o s
    verdict-evaluate_at (node f children child) =
        verdict-evaluate_case (rule_type f.type) f (evaluate_rules children o s)
          (evaluate_pointer child o s)
        ∙ cc (verdicts-evaluate_rules children, verdict-evaluate_pointer child)

    verdicts-evaluate_rules :
        (rs : Rules F) → option_map verdicts (evaluate_rules rs o s) ≡ meaning_rules rs o s
    verdicts-evaluate_rules no_rules = refl
    verdicts-evaluate_rules (rules r rs) =
        verdicts_cons (evaluate r o s) (evaluate_rules rs o s) (verdict-evaluate_at r)
          (verdicts-evaluate_rules rs)

    verdict-evaluate_pointer :
        (p : RulePointer F) → option_map verdict (evaluate_pointer p o s) ≡ meaning_pointer p o s
    verdict-evaluate_pointer nil = refl
    verdict-evaluate_pointer (pointer r) = verdict-evaluate_at r

  -- What evaluate says of a rule, by its flags known and matched, is the reading of the rule: `all` is
  -- the conjunction that one unknown child makes unknown, `any` the disjunction of the known children,
  -- and `not` turns a known answer round; a panic is a panic of both.
  pub verdict-evaluate : (r : Rule F) → option_map verdict (evaluate r o s) ≡ meaning r o s
  verdict-evaluate r = verdict-evaluate_at r
