-- ===== src/Engine/Routes/Validity.antt =====
-- Every definition that the engine routes holds a rule that Validate accepts.
use alerts.Common.{
  ℕ, ◌≡◌, refl, String, Bool, true, false, not, none, List, [], ◌∷◌, ◌++◌, arith, ◌==◌, string_eq,
  if◌then◌else◌, keep, Result, ok, err, Option-cases, inl, inr,
}
use alerts.Common.Dict.{lookup, insert}
use alerts.Model.{Float64, Rule, Series, AlertDefinition}
use alerts.Rules.Validate.{RuleError, validate}
use alerts.Rules.Evaluate.{Compiled, compile}
use alerts.Engine.State.{CompiledDefinition, Engine}
use alerts.Engine.Routes.{
  Routes, route, insert_sorted, sort_by_id, sort_routes, add_route, replace_by_id, remove_from,
  remove_definition, definitions_for, build_routes, replace_definitions, upsert_route,
  upsert_definition,
}

module _ {F : Type 0} ⦃fl : Float64 F⦄ where
  abbrev pub AllCompiled : List (CompiledDefinition F) → Type 0
  AllCompiled [] = Unit
  AllCompiled (c ∷ cs) = (validate c.rule.rule ≡ none) × AllCompiled cs

  -- All definitions of all routes hold a valid rule.
  abbrev pub AreCompiled : Routes F → Type 0
  AreCompiled [] = Unit
  AreCompiled ((key, cs) ∷ rs) = AllCompiled cs × AreCompiled rs

  append-AllCompiled :
      (xs ys : List (CompiledDefinition F))
      → AllCompiled xs
      → AllCompiled ys
      → AllCompiled (xs ++ ys)
  append-AllCompiled [] ys h k = k
  append-AllCompiled (x ∷ xs) ys (p, h) k = (p, append-AllCompiled xs ys h k)

  keep-AllCompiled :
      (q : CompiledDefinition F → Bool) (xs : List (CompiledDefinition F))
      → AllCompiled xs
      → AllCompiled (keep q xs)
  unfolding keep
  keep-AllCompiled q [] h = tt
  keep-AllCompiled q (x ∷ xs) (p, h) = ground (arith, keep-AllCompiled q xs h)

  insert_sorted-AllCompiled :
      (c : CompiledDefinition F) (xs : List (CompiledDefinition F))
      → validate c.rule.rule ≡ none
      → AllCompiled xs
      → AllCompiled (insert_sorted c xs)
  unfolding insert_sorted
  insert_sorted-AllCompiled c [] p h = (p, tt)
  insert_sorted-AllCompiled c (x ∷ xs) p (q, h) = ground (arith, insert_sorted-AllCompiled c xs p h)

  sort_by_id-AllCompiled :
      (xs : List (CompiledDefinition F)) → AllCompiled xs → AllCompiled (sort_by_id xs)
  unfolding sort_by_id
  sort_by_id-AllCompiled [] h = tt
  sort_by_id-AllCompiled (x ∷ xs) (p, h) =
      insert_sorted-AllCompiled x (sort_by_id xs) p (sort_by_id-AllCompiled xs h)

  replace_by_id-AllCompiled :
      (c : CompiledDefinition F) (xs : List (CompiledDefinition F))
      → validate c.rule.rule ≡ none
      → AllCompiled xs
      → AllCompiled (replace_by_id c xs)
  unfolding replace_by_id
  replace_by_id-AllCompiled c [] p h = tt
  replace_by_id-AllCompiled c (x ∷ xs) p (q, h) = ground (arith, replace_by_id-AllCompiled c xs p h)

  route-AllCompiled :
      (routes : Routes F) (key : String) → AreCompiled routes → AllCompiled (route routes key)
  unfolding route lookup
  route-AllCompiled [] key h = tt
  route-AllCompiled ((j, cs) ∷ rs) key (p, h) = ground (arith, route-AllCompiled rs key h)

  insert-AreCompiled :
      (routes : Routes F) (key : String) (cs : List (CompiledDefinition F))
      → AllCompiled cs
      → AreCompiled routes
      → AreCompiled (insert key cs routes)
  unfolding insert
  insert-AreCompiled [] key cs p h = (p, tt)
  insert-AreCompiled ((j, ds) ∷ rs) key cs p (q, h) =
      ground (arith, insert-AreCompiled rs key cs p h)

  add_route-AreCompiled :
      (c : CompiledDefinition F) (routes : Routes F)
      → validate c.rule.rule ≡ none
      → AreCompiled routes
      → AreCompiled (add_route c routes)
  add_route-AreCompiled c routes p h =
      insert-AreCompiled routes _ _ (append-AllCompiled _ _ (route-AllCompiled routes _ h) (p, tt))
        h

  sort_routes-AreCompiled :
      (routes : Routes F) → AreCompiled routes → AreCompiled (sort_routes routes)
  unfolding sort_routes
  sort_routes-AreCompiled [] h = tt
  sort_routes-AreCompiled ((j, cs) ∷ rs) (p, h) =
      (sort_by_id-AllCompiled cs p, sort_routes-AreCompiled rs h)

  remove_from-AreCompiled :
      (id : String) (routes : Routes F) → AreCompiled routes → AreCompiled (remove_from id routes)
  unfolding remove_from
  remove_from-AreCompiled id [] h = tt
  remove_from-AreCompiled id ((j, cs) ∷ rs) (p, h) =
      go (keep (λ c. not (c.definition.id == id)) cs) (keep-AllCompiled _ cs p)
        (remove_from-AreCompiled id rs h)
    where
      go :
          (l : List (CompiledDefinition F))
          → AllCompiled l
          → AreCompiled (remove_from id rs)
          → AreCompiled
              (elim l [ [] ↦ remove_from id rs | c ∷ others ↦ (j, c ∷ others) ∷ remove_from id rs ])
      go [] q k = k
      go (c ∷ others) q k = (q, k)

  -- What compile returns holds a valid rule.
  compile-valid : (r : Rule F) {c : Compiled F} → compile r ≡ ok c → validate c.rule ≡ none
  unfolding compile
  compile-valid r e = elim (Option-cases (validate r)) [ inl p ↦ ground arith | inr (x, p) ↦ cc ]

  abbrev BuiltWell : Result (String × RuleError) (Routes F) → Type 0
  BuiltWell (ok routes) = AreCompiled routes
  BuiltWell (err x) = Unit

  build_routes-BuiltWell :
      (ds : List (AlertDefinition F)) (routes : Routes F)
      → AreCompiled routes
      → BuiltWell (build_routes ds routes)
  unfolding build_routes
  build_routes-BuiltWell [] routes h = h
  build_routes-BuiltWell (d ∷ ds) routes h =
      go (compile d.rule) refl
        (λ c q. build_routes-BuiltWell ds _ (add_route-AreCompiled _ routes q h))
    where
      go :
          (x : Result RuleError (Compiled F))
          → compile d.rule ≡ x
          → ((c : Compiled F)
              → validate c.rule ≡ none
              → BuiltWell
                  (build_routes ds (add_route (record { definition = d; rule = c }) routes)))
          → BuiltWell (elim x [
            | err e ↦ err (d.id, e)
            | ok c ↦ build_routes ds (add_route (record { definition = d; rule = c }) routes)
          ])
      go (err e) p k = tt
      go (ok c) p k = k c (compile-valid d.rule p)

  -- Replacing the definitions keeps or establishes it, whether or not all of them compile.
  pub replace_definitions-AreCompiled :
      (ds : List (AlertDefinition F)) (now : ℕ) (e : Engine F)
      → AreCompiled e.by_route
      → AreCompiled (replace_definitions ds now e).0.by_route
  unfolding replace_definitions
  replace_definitions-AreCompiled ds now e h =
      go (build_routes ds []) (build_routes-BuiltWell ds [] tt)
    where
      go :
          (x : Result (String × RuleError) (Routes F))
          → BuiltWell x
          → AreCompiled
              (let r : Engine F × Result (String × RuleError) (Unit {0}) = elim x [
                | err y ↦ (e, err y)
                | ok routes ↦
                    (record e { by_route = sort_routes routes; refreshed_at = now }, ok tt)
              ] in
                r).0.by_route
      go (err y) w = h
      go (ok routes) w = sort_routes-AreCompiled routes w

  upsert_list-AllCompiled :
      (b : Bool) (c : CompiledDefinition F) (cs : List (CompiledDefinition F))
      → validate c.rule.rule ≡ none
      → AllCompiled cs
      → AllCompiled (if b then replace_by_id c cs else sort_by_id (cs ++ c ∷ []))
  upsert_list-AllCompiled true c cs p h = replace_by_id-AllCompiled c cs p h
  upsert_list-AllCompiled false c cs p h =
      sort_by_id-AllCompiled (cs ++ c ∷ []) (append-AllCompiled cs (c ∷ []) h (p, tt))

  pub upsert_definition-AreCompiled :
      (d : AlertDefinition F) (e : Engine F)
      → AreCompiled e.by_route
      → AreCompiled (upsert_definition d e).0.by_route
  unfolding upsert_definition
  upsert_definition-AreCompiled d e h = go (compile d.rule) refl
    where
      go :
          (x : Result RuleError (Compiled F))
          → compile d.rule ≡ x
          → AreCompiled
              (let r : Engine F × Result RuleError (Unit {0}) = elim x [
                | err y ↦ (e, err y)
                | ok c ↦ (
                  record e {
                    by_route = upsert_route (record { definition = d; rule = c }) e.by_route;
                  },
                  ok tt,
                )
              ] in
                r).0.by_route
      go (err y) p = h
      go (ok c) p =
          insert-AreCompiled e.by_route _ _
            (upsert_list-AllCompiled _ (record { definition = d; rule = c }) _
              (compile-valid d.rule p) (route-AllCompiled e.by_route _ h))
            h

  pub remove_definition-AreCompiled :
      (id : String) (e : Engine F)
      → AreCompiled e.by_route
      → AreCompiled (remove_definition id e).by_route
  unfolding remove_definition
  remove_definition-AreCompiled id e h = remove_from-AreCompiled id e.by_route h

  -- So are the definitions that a series is evaluated with.
  pub definitions_for-AllCompiled :
      (routes : Routes F) (s : Series) → AreCompiled routes → AllCompiled (definitions_for routes s)
  unfolding definitions_for
  definitions_for-AllCompiled routes s h =
      exact_or_both (not (s.dataset == "")) _ _ (route-AllCompiled routes _ h)
        (route-AllCompiled routes _ h)
    where
      exact_or_both :
          (b : Bool) (xs ys : List (CompiledDefinition F))
          → AllCompiled xs
          → AllCompiled ys
          → AllCompiled (if b then xs ++ ys else xs)
      exact_or_both true xs ys p q = append-AllCompiled xs ys p q
      exact_or_both false xs ys p q = p
