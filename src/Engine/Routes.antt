-- ===== src/Engine/Routes.antt =====
-- The routes of internal/runtime/engine.go: compiled definitions by dataset, symbol and timeframe.
pub mod Validity
use alerts.Common.{
  ℕ, String, Bool, true, false, not, ◌&&◌, Option, none, some, List, [], ◌∷◌, ◌++◌, ◌==◌, string_eq,
  if◌then◌else◌, or_zero, keep, Result, ok, err, any,
}
use alerts.Common.Text.{str_ltb}
use alerts.Common.Dict.{Dict, lookup, insert}
use alerts.Model.{Float64, Series, AlertDefinition}
use alerts.Rules.Validate.{RuleError}
use alerts.Rules.Evaluate.{Compiled, compile}
use alerts.Engine.State.{CompiledDefinition, Engine}
use alerts.Engine.Partitions.{route_key}

abbrev pub Routes : Type 0 → Type 0
Routes F = Dict String (List (CompiledDefinition F))

-- routes[key]: a nil slice for a missing key
unfoldable pub route : {F : Type 0} → Routes F → String → List (CompiledDefinition F)
route routes key = or_zero [] (lookup key routes)

insert_sorted :
    {F : Type 0} → CompiledDefinition F → List (CompiledDefinition F) → List (CompiledDefinition F)
insert_sorted c [] = c ∷ []
insert_sorted c (d ∷ ds) =
    if str_ltb d.definition.id c.definition.id then d ∷ insert_sorted c ds else c ∷ d ∷ ds

-- sort.Slice by definition ID
unfoldable pub sort_by_id : {F : Type 0} → List (CompiledDefinition F) → List (CompiledDefinition F)
unfolding insert_sorted
sort_by_id [] = []
sort_by_id (c ∷ cs) = insert_sorted c (sort_by_id cs)

sort_routes : {F : Type 0} → Routes F → Routes F
sort_routes [] = []
sort_routes ((key, cs) ∷ rs) = (key, sort_by_id cs) ∷ sort_routes rs

abbrev add_route : {F : Type 0} → CompiledDefinition F → Routes F → Routes F
add_route c routes =
    let key = route_key c.definition.series in insert key (route routes key ++ c ∷ []) routes

-- Whether some definition of the slice has this ID.
unfoldable pub has_id : {F : Type 0} → String → List (CompiledDefinition F) → Bool
has_id id cs = any (λ c. c.definition.id == id) cs

-- definitions[index] = c at the first index with its ID
unfoldable pub replace_by_id :
    {F : Type 0} → CompiledDefinition F → List (CompiledDefinition F) → List (CompiledDefinition F)
replace_by_id c [] = []
replace_by_id c (d ∷ ds) =
    if d.definition.id == c.definition.id then c ∷ ds else d ∷ replace_by_id c ds

-- RemoveDefinition leaves no route without definitions.
unfoldable pub remove_from : {F : Type 0} → String → Routes F → Routes F
remove_from id [] = []
remove_from id ((key, cs) ∷ rs) =
    let rest = remove_from id rs in
    let filtered = keep (λ c. not (c.definition.id == id)) cs in
    elim filtered [ [] ↦ rest | c ∷ others ↦ (key, c ∷ others) ∷ rest ]

unfoldable pub remove_definition : {F : Type 0} → String → Engine F → Engine F
unfolding remove_from
remove_definition id e = record e { by_route = remove_from id e.by_route }

-- definitionsFor: the exact route, then the route of every dataset, which an empty dataset has only once.
unfoldable pub definitions_for : {F : Type 0} → Routes F → Series → List (CompiledDefinition F)
unfolding route route_key
definitions_for routes s =
    let exact = route routes (route_key s) in
    let wildcard = route routes (route_key (record s { dataset = "" })) in
    if not (s.dataset == "") then exact ++ wildcard else exact

module _ {F : Type 0} ⦃fl : Float64 F⦄ where
  -- The loop of ReplaceDefinitions; the error names the definition that does not compile.
  build_routes : List (AlertDefinition F) → Routes F → Result (String × RuleError) (Routes F)
  build_routes [] routes = ok routes
  build_routes (d ∷ ds) routes = elim (compile d.rule) [
    | err e ↦ err (d.id, e)
    | ok c ↦ build_routes ds (add_route (record { definition = d; rule = c }) routes)
  ]

  unfoldable pub replace_definitions :
      List (AlertDefinition F) → ℕ → Engine F → Engine F × Result (String × RuleError) (Unit {0})
  unfolding build_routes sort_routes
  replace_definitions ds now e = elim (build_routes ds []) [
    | err x ↦ (e, err x)
    | ok routes ↦ (record e { by_route = sort_routes routes; refreshed_at = now }, ok tt)
  ]

  abbrev upsert_route : CompiledDefinition F → Routes F → Routes F
  upsert_route c routes =
      let key = route_key c.definition.series in
      let cs = route routes key in
      insert key
        (if has_id c.definition.id cs then replace_by_id c cs else sort_by_id (cs ++ c ∷ [])) routes

  unfoldable pub upsert_definition :
      AlertDefinition F → Engine F → Engine F × Result RuleError (Unit {0})
  upsert_definition d e = elim (compile d.rule) [
    | err x ↦ (e, err x)
    | ok c ↦ (
      record e { by_route = upsert_route (record { definition = d; rule = c }) e.by_route },
      ok tt,
    )
  ]
