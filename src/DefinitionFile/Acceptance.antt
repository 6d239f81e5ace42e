-- ===== src/DefinitionFile/Acceptance.antt =====
-- A manifest is checked as the service checks a definition that it creates.
use alerts.Common.{
  ℕ, suc, ◌+◌, String, Bool, true, false, not, ◌&&◌, ◌||◌, Option, none, some, List, [], ◌∷◌, All,
  ◌==◌, string_eq, if◌then◌else◌, Result, ok, err, ◌≡◌, refl, ap, ◌∙◌, ◌↔◌, sym, Bool-cases, inl,
  inr, arith,
}
use alerts.Common.Int.{ltb_ℤ, pos}
use alerts.Model.{Float64}
use alerts.Rules.Kinds.{requires_intrabar}
use alerts.Rules.Validate.{RuleError, validate}
use alerts.Service.{
  ServiceError, name_required, cooldown_negative, bad_evaluation_mode, bad_trigger_mode,
  intrabar_required, bad_rule, or_default, check_definition,
}
use alerts.DefinitionFile.{
  Definition, Manifest, ManifestError, wrong_schema, in_definition, schema, DefinitionError,
  fields_required, negative_cooldown, invalid_evaluation_mode, invalid_trigger_mode, needs_intrabar,
  invalid_rule, definition_error, validate_definitions, validate_manifest,
}

-- The error of the service for the same fault.
abbrev pub of_service : DefinitionError → ServiceError
of_service fields_required = name_required
of_service negative_cooldown = cooldown_negative
of_service invalid_evaluation_mode = bad_evaluation_mode
of_service invalid_trigger_mode = bad_trigger_mode
of_service needs_intrabar = intrabar_required
of_service (invalid_rule x) = bad_rule x

-- Create's answer for a definition of a manifest.
abbrev pub created_as :
    Option DefinitionError → String × String → Result ServiceError (String × String)
created_as none modes = ok modes
created_as (some x) modes = err (of_service x)

-- The checks of both, one after another.
same_checks :
    (a b c c' e e' i f f' : Bool) (v : Option RuleError) (modes : String × String)
    → c' ≡ not c
    → e' ≡ not e
    → f' ≡ f
    → (let r : Result ServiceError (String × String) =
          if a
          then err name_required
          else if b
          then err cooldown_negative
          else if not c
          then err bad_evaluation_mode
          else if not e
          then err bad_trigger_mode
          else (elim v [
            | some x ↦ err (bad_rule x)
            | none ↦ if i && f then err intrabar_required else ok modes
          ]) in
        r)
      ≡ created_as
          (if a
            then some fields_required
            else if b
            then some negative_cooldown
            else if c'
            then some invalid_evaluation_mode
            else if e'
            then some invalid_trigger_mode
            else (elim v [
              | some x ↦ some (invalid_rule x)
              | none ↦ if i && f' then some needs_intrabar else none
            ]))
          modes
same_checks true b c c' e e' i f f' v modes x y z = refl
same_checks false true c c' e e' i f f' v modes x y z = refl
same_checks false false false c' e e' i f f' v modes x y z = rw x refl
same_checks false false true c' false e' i f f' v modes x y z = rw (x, y) refl
same_checks false false true c' true e' i f f' (some w) modes x y z = rw (x, y) refl
same_checks false false true c' true e' true true f' none modes x y z = rw (x, y, z) refl
same_checks false false true c' true e' true false f' none modes x y z = rw (x, y, z) refl
same_checks false false true c' true e' false f f' none modes x y z = rw (x, y) refl

none_of : (a b c : Bool) → (not a && not b && not c) ≡ not (a || b || c)
none_of false b c = ground arith
none_of true b c = refl

same_self : (x : String) → (x == x) ≡ true
same_self x = (string_eq.same_iff x x).1 refl

-- A mode of a list whose first one is the default.
modes_agree :
    (m x y z : String)
    → (not (m == "") && not (m == x) && not (m == y) && not (m == z))
      ≡ not (or_default m x == x || or_default m x == y || or_default m x == z)
modes_agree m x y z = elim (Bool-cases (m == "")) [
  | inl h ↦ rw (h, same_self x) refl
  | inr h ↦ rw h (none_of (m == x) (m == y) (m == z))
]

closes_agree : (m x : String) → (m == "" || m == x) ≡ (or_default m x == x)
closes_agree m x = elim (Bool-cases (m == "")) [
  | inl h ↦ rw (h, same_self x) refl
  | inr h ↦ rw h refl
]

both_none :
    (index : ℕ) (name : String) (e : Option DefinitionError) (rest : Option ManifestError)
    → (elim e [ none ↦ rest | some x ↦ some (in_definition (index + 1) name x) ]) ≡ none
      ↔ ((e ≡ none) × (rest ≡ none))
both_none index name none rest = ((λ h. (refl, h)), λ (a, b). b)
both_none index name (some x) rest = ((λ h. cc), λ (a, b). cc)

module _ {F : Type 0} ⦃fl : Float64 F⦄ where
  -- Create answers for a definition of a manifest with its modes, the defaults put in, exactly where the manifest
  -- accepts it, and with the error of the same fault otherwise.
  pub check_definition-definition_error :
      (d : Definition F)
      → check_definition d.name d.series d.rule d.evaluation_mode d.trigger_mode d.cooldown_seconds
        ≡ created_as (definition_error d) (
          or_default d.evaluation_mode "confirmed_close",
          or_default d.trigger_mode "on_occurrence",
        )
  unfolding check_definition definition_error
  check_definition-definition_error d =
      same_checks (d.name == "" || d.series.symbol == "" || d.series.timeframe == "")
        (ltb_ℤ d.cooldown_seconds (pos 0)) _ _ _ _ (requires_intrabar d.rule) _ _ (validate d.rule)
        _ (modes_agree d.evaluation_mode "confirmed_close" "intrabar" "both")
        (modes_agree d.trigger_mode "on_occurrence" "once_per_bar" "every_match")
        (closes_agree d.evaluation_mode "confirmed_close")

  validate_definitions-none :
      (index : ℕ) (ds : List (Definition F))
      → validate_definitions index ds ≡ none ↔ All (λ d. definition_error d ≡ none) ds
  unfolding validate_definitions
  validate_definitions-none index [] = ((λ h. tt), λ h. refl)
  validate_definitions-none index (d ∷ ds) =
      let rest = validate_definitions-none (suc index) ds in
      let (f, g) =
        both_none index d.name (definition_error d) (validate_definitions (suc index) ds) in
      ((λ h. let (a, b) = f h in (a, rest.0 b)), λ (a, b). g (a, rest.1 b))

  -- Create answers with modes.
  abbrev pub IsCreated : Definition F → Type 0
  IsCreated d =
      check_definition d.name d.series d.rule d.evaluation_mode d.trigger_mode d.cooldown_seconds
      ≡ ok (
        or_default d.evaluation_mode "confirmed_close",
        or_default d.trigger_mode "on_occurrence",
      )

  pub definition_error-IsCreated : (d : Definition F) → definition_error d ≡ none ↔ IsCreated d
  definition_error-IsCreated d =
      let e = check_definition-definition_error d in
      (
        (λ h.
            e
            ∙ ap
                (λ x. created_as x (
                  or_default d.evaluation_mode "confirmed_close",
                  or_default d.trigger_mode "on_occurrence",
                ))
                h),
        λ h. unrefused (definition_error d) _ (sym e ∙ h),
      )
    where
      unrefused :
          (x : Option DefinitionError) (a : String × String) {b : String × String}
          → created_as x a ≡ ok b
          → x ≡ none
      unrefused none a h = refl
      unrefused (some x) a h = cc

  IsCreated-All :
      (ds : List (Definition F)) → All (λ d. definition_error d ≡ none) ds ↔ All IsCreated ds
  IsCreated-All [] = ((λ h. h), λ h. h)
  IsCreated-All (d ∷ ds) =
      let (f, g) = definition_error-IsCreated d in
      let rest = IsCreated-All ds in ((λ (a, b). (f a, rest.0 b)), λ (a, b). (g a, rest.1 b))

  -- A manifest is valid exactly if it has the schema and Create answers for each of its definitions with modes:
  -- import offers the service nothing that its own checks would refuse.
  pub validate_manifest_iff :
      (m : Manifest F)
      → validate_manifest m ≡ none ↔ ((m.schema ≡ schema) × All IsCreated m.definitions)
  unfolding validate_manifest
  validate_manifest_iff m =
      let (f, g) = validate_definitions-none 0 m.definitions in
      let (f', g') = IsCreated-All m.definitions in
      let (t, t') = string_eq.same_iff m.schema schema in
      decided (m.schema == schema) (validate_definitions 0 m.definitions) t t' (λ h. f' (f h))
        (λ h. g (g' h))
    where
      decided :
          {P Q : Type 0} (b : Bool) (e : Option ManifestError)
          → (b ≡ true → P)
          → (P → b ≡ true)
          → (e ≡ none → Q)
          → (Q → e ≡ none)
          → (if not b then some wrong_schema else e) ≡ none ↔ (P × Q)
      decided true e f g h k = ((λ x. (f refl, h x)), λ (p, q). k q)
      decided false e f g h k = ((λ x. cc), λ (p, q). let n = g p in cc)
