-- ===== src/DefinitionFile.antt =====
-- internal/definitionfile/definitionfile.go: manifests of definitions, and their export and import over the
-- HTTP API.
pub mod Acceptance
pub mod Sorting
pub mod Counts
pub mod Files
pub mod Export
use alerts.Common.{
  ℕ, suc, ◌+◌, String, ◌<>◌, Bool, true, not, ◌&&◌, ◌||◌, Option, none, some, List, [], ◌∷◌, ◌++◌,
  map, ltb, ◌==◌, string_eq, if◌then◌else◌, or_zero, Result, ok, err, nat_eq, Bool-cases,
}
use alerts.Common.Int.{ℤ, pos, ltb_ℤ}
use alerts.Common.Text.{str_ltb}
use alerts.Model.{Float64, Series, Rule, AlertDefinition}
use alerts.Rules.Kinds.{requires_intrabar}
use alerts.Rules.Validate.{RuleError, validate}

abbrev pub schema : String
schema = "alerts.definitions.v1"

-- A flag that is missing is none.
pub record Definition (F : Type 0) : Type 0 where
  pub name : String
  pub enabled : Option Bool
  pub series : Series
  pub rule : Rule F
  pub evaluation_mode : String
  pub trigger_mode : String
  pub cooldown_seconds : ℤ

-- The method enabled
unfoldable pub is_enabled : {F : Type 0} → Definition F → Bool
is_enabled d = or_zero true d.enabled

pub record Manifest (F : Type 0) : Type 0 where
  pub schema : String
  pub definitions : List (Definition F)

abbrev pub portable : {F : Type 0} → AlertDefinition F → Definition F
portable d = record {
  name = d.name;
  enabled = some d.enabled;
  series = d.series;
  rule = d.rule;
  evaluation_mode = d.evaluation_mode;
  trigger_mode = d.trigger_mode;
  cooldown_seconds = d.cooldown_seconds;
}

-- json.Marshal of a rule is a parameter; the text is empty where it fails.
module _ {F : Type 0} (rule_json : Rule F → String) where
  unfoldable pub definition_sort_key : Definition F → String
  definition_sort_key d =
      d.series.dataset
      <> "\0"
      <> d.series.symbol
      <> "\0"
      <> d.series.timeframe
      <> "\0"
      <> d.name
      <> "\0"
      <> rule_json d.rule

  -- A definition goes before the first one whose key is not smaller.
  unfoldable pub insert_definition : Definition F → List (Definition F) → List (Definition F)
  unfolding definition_sort_key
  insert_definition d [] = d ∷ []
  insert_definition d (c ∷ cs) =
      let rest = insert_definition d cs in
      if str_ltb (definition_sort_key c) (definition_sort_key d) then c ∷ rest else d ∷ c ∷ cs

  -- sort.SliceStable by the sort key
  unfoldable pub sort_definitions : List (Definition F) → List (Definition F)
  unfolding insert_definition
  sort_definitions [] = []
  sort_definitions (d ∷ ds) = insert_definition d (sort_definitions ds)

  -- New
  unfoldable pub new_manifest : List (AlertDefinition F) → Manifest F
  unfolding sort_definitions
  new_manifest ds = record { schema = schema; definitions = sort_definitions (map portable ds) }

-- What is wrong with one definition.
pub data DefinitionError : Type 0 where
  fields_required negative_cooldown invalid_evaluation_mode invalid_trigger_mode needs_intrabar :
      DefinitionError
  invalid_rule : RuleError → DefinitionError

-- The position counts from 1.
pub data ManifestError : Type 0 where
  wrong_schema : ManifestError
  in_definition : ℕ → String → DefinitionError → ManifestError

module _ {F : Type 0} ⦃fl : Float64 F⦄ where
  unfoldable pub definition_error : Definition F → Option DefinitionError
  unfolding validate requires_intrabar
  definition_error d =
      if d.name == "" || d.series.symbol == "" || d.series.timeframe == ""
      then some fields_required
      else if ltb_ℤ d.cooldown_seconds (pos 0)
      then some negative_cooldown
      else if not (d.evaluation_mode == "")
          && not (d.evaluation_mode == "confirmed_close")
          && not (d.evaluation_mode == "intrabar")
          && not (d.evaluation_mode == "both")
      then some invalid_evaluation_mode
      else if not (d.trigger_mode == "")
          && not (d.trigger_mode == "on_occurrence")
          && not (d.trigger_mode == "once_per_bar")
          && not (d.trigger_mode == "every_match")
      then some invalid_trigger_mode
      else (elim (validate d.rule) [
        | some e ↦ some (invalid_rule e)
        | none ↦
            if requires_intrabar d.rule
              && (d.evaluation_mode == "" || d.evaluation_mode == "confirmed_close")
            then some needs_intrabar
            else none
      ])

  -- The loop of Validate, from an index.
  unfoldable pub validate_definitions : ℕ → List (Definition F) → Option ManifestError
  unfolding definition_error
  validate_definitions index [] = none
  validate_definitions index (d ∷ ds) =
      let rest = validate_definitions (suc index) ds in
      elim (definition_error d) [ none ↦ rest | some e ↦ some (in_definition (index + 1) d.name e) ]

  unfoldable pub validate_manifest : Manifest F → Option ManifestError
  unfolding validate_definitions
  validate_manifest m =
      if not (m.schema == schema) then some wrong_schema else validate_definitions 0 m.definitions

-- What the client asks of the API: POST /v1/definitions, and PATCH /v1/definitions/{id} of the flag.
pub data Request (F : Type 0) : Type 0 where
  post : Definition F → Request F
  patch : String → Bool → Request F

pub data RequestError : Type 0 where
  not_sent : String → RequestError
  http_status : ℕ → RequestError
  not_decoded : RequestError

pub data ImportError : Type 0 where
  invalid_manifest : ManifestError → ImportError
  not_imported not_enabled : ℕ → String → RequestError → ImportError

-- The two names of a mismatch.
pub record ImportResult : Type 0 where
  pub created : ℕ
  pub existing : ℕ
  pub state_updated : ℕ
  pub name_mismatches : List (String × String)

abbrev pub empty_result : ImportResult
empty_result = record { created = 0; existing = 0; state_updated = 0; name_mismatches = [] }

-- net/http with the server behind it: the state of the server, an error of the transport or a status and the
-- body's definition if it decodes.
abbrev pub Transport : Type 0 → Type 0 → Type 0
Transport F S = S → Request F → S × Result String (ℕ × Option (AlertDefinition F))

abbrev pub checked : {A : Type 0} → Result String (ℕ × Option A) → Result RequestError (ℕ × A)
checked (err x) = err (not_sent x)
checked (ok (status, body)) =
    if ltb status 200 || not (ltb status 300)
    then err (http_status status)
    else (elim body [ none ↦ err not_decoded | some a ↦ ok (status, a) ])

module _ {F S : Type 0} (send : Transport F S) where
  -- Client.do
  unfoldable pub do_request : S → Request F → S × Result RequestError (ℕ × AlertDefinition F)
  do_request s r = let (s', answer) = send s r in (s', checked answer)

  abbrev count_answer : Definition F → ℕ → AlertDefinition F → ImportResult → ImportResult
  count_answer d status stored r =
      let counted =
        if status == 201
        then record r { created = r.created + 1 }
        else record r { existing = r.existing + 1 } in
      if stored.name == d.name
      then counted
      else record counted { name_mismatches = r.name_mismatches ++ (d.name, stored.name) ∷ [] }

  -- The same flag needs no second request.
  abbrev same_flag : Bool → Bool → Bool
  same_flag a b = if a then b else not b

  -- One turn of the loop of Import.
  unfoldable pub import_definition :
      ℕ → Definition F → S → ImportResult → S × ImportResult × Option ImportError
  unfolding do_request is_enabled
  import_definition index d s r =
      let (s₁, posted) = do_request s (post d) in
      elim posted [
        | err x ↦ (s₁, r, some (not_imported (index + 1) d.name x))
        | ok (status, stored) ↦
            let counted = count_answer d status stored r in
            if same_flag stored.enabled (is_enabled d)
            then (s₁, counted, none)
            else (let (s₂, patched) = do_request s₁ (patch stored.id (is_enabled d)) in
                elim patched [
                  | err x ↦ (s₂, counted, some (not_enabled (index + 1) d.name x))
                  | ok _ ↦ (s₂, record counted { state_updated = counted.state_updated + 1 }, none)
                ])
      ]

  unfoldable pub import_definitions :
      ℕ
      → List (Definition F)
      → S × ImportResult × Option ImportError
      → S × ImportResult × Option ImportError
  unfolding import_definition
  import_definitions index ds (s, r, some x) = (s, r, some x)
  import_definitions index [] (s, r, none) = (s, r, none)
  import_definitions index (d ∷ ds) (s, r, none) =
      import_definitions (suc index) ds (import_definition index d s r)

  -- Client.Import
  unfoldable pub import_manifest :
      ⦃fl : Float64 F⦄ → Manifest F → S → S × ImportResult × Option ImportError
  unfolding validate_manifest import_definitions
  import_manifest m s = elim (validate_manifest m) [
    | some x ↦ (s, empty_result, some (invalid_manifest x))
    | none ↦ import_definitions 0 m.definitions (s, empty_result, none)
  ]
