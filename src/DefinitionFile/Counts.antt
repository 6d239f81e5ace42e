-- ===== src/DefinitionFile/Counts.antt =====
-- What the counts of an import say.
use mathlib.Core.Path.{subst}
use alerts.Common.{
  ℕ, suc, ◌+◌, ◌≤◌, String, Bool, true, false, Option, none, some, List, [], ◌∷◌, length,
  length-append, ◌==◌, nat_eq, string_eq, if◌then◌else◌, Result, ok, err, ◌≡◌, refl, Bool-cases,
  inl, inr, arith,
}
use alerts.Model.{Float64, AlertDefinition}
use alerts.DefinitionFile.{
  Definition, Manifest, Transport, RequestError, ImportError, ManifestError, invalid_manifest,
  not_imported, not_enabled, ImportResult, empty_result, validate_manifest, post, patch, do_request,
  is_enabled, count_answer, same_flag, import_definition, import_definitions, import_manifest,
}

-- The definitions whose answer has been counted.
abbrev pub handled : ImportResult → ℕ
handled r = r.created + r.existing

-- How the counts stand when the loop has taken a number of definitions without an error, or has ended with one.
abbrev pub Accounts : {S : Type 0} → ℕ → S × ImportResult × Option ImportError → Type 0
Accounts n (s, r, none) = (handled r ≡ n) × (r.state_updated ≤ n) × (length r.name_mismatches ≤ n)
Accounts n (s, r, some (invalid_manifest x)) = r ≡ empty_result
Accounts n (s, r, some (not_imported position name x)) =
    (handled r + 1 ≡ position) × (position ≤ n) × (r.state_updated ≤ handled r)
Accounts n (s, r, some (not_enabled position name x)) =
    (handled r ≡ position) × (position ≤ n) × (r.state_updated + 1 ≤ handled r)

module _ {F S : Type 0} (send : Transport F S) where
  -- An answer is counted once.
  count_answer_lem :
      (d : Definition F) (status : ℕ) (stored : AlertDefinition F) (r : ImportResult)
      → (handled (count_answer send d status stored r) ≡ handled r + 1)
        × ((count_answer send d status stored r).state_updated ≡ r.state_updated)
        × (length (count_answer send d status stored r).name_mismatches
            ≤ length r.name_mismatches + 1)
  count_answer_lem d status stored r = elim (Bool-cases (status == 201)) [
    | inl y ↦ elim (Bool-cases (stored.name == d.name)) [
      | inl z ↦ rw (y, z) (ground arith, refl, ground arith)
      | inr z ↦
          rw (y, z, length-append r.name_mismatches ((d.name, stored.name) ∷ []))
            (ground arith, refl, ground arith)
    ]
    | inr y ↦ elim (Bool-cases (stored.name == d.name)) [
      | inl z ↦ rw (y, z) (ground arith, refl, ground arith)
      | inr z ↦
          rw (y, z, length-append r.name_mismatches ((d.name, stored.name) ∷ []))
            (ground arith, refl, ground arith)
    ]
  ]

  import_definition-Accounts :
      (index : ℕ) (d : Definition F) (s : S) (r : ImportResult)
      → Accounts index (s, r, none)
      → Accounts (index + 1) (import_definition send index d s r)
  unfolding import_definition
  import_definition-Accounts index d s r (h, u, m) = answered (do_request send s (post d))
    where
      patched :
          (c : ImportResult) (a : S × Result RequestError (ℕ × AlertDefinition F))
          → handled c ≡ index + 1
          → c.state_updated ≤ index
          → length c.name_mismatches ≤ index + 1
          → Accounts {S = S} (index + 1) (
              let (s₂, answer) = a in
              elim answer [
                | err x ↦ (s₂, c, some (not_enabled (index + 1) d.name x))
                | ok _ ↦ (s₂, record c { state_updated = c.state_updated + 1 }, none)
              ])
      patched c (s₂, err x) p q l = (p, ground arith, ground arith)
      patched c (s₂, ok _) p q l = (p, ground arith, l)

      settled :
          (same : Bool) (s₁ : S) (id : String) (c : ImportResult)
          → handled c ≡ index + 1
          → c.state_updated ≤ index
          → length c.name_mismatches ≤ index + 1
          → Accounts {S = S} (index + 1) (
              if same
              then (s₁, c, none)
              else (let (s₂, patched) = do_request send s₁ (patch id (is_enabled d)) in
                  elim patched [
                    | err x ↦ (s₂, c, some (not_enabled (index + 1) d.name x))
                    | ok _ ↦ (s₂, record c { state_updated = c.state_updated + 1 }, none)
                  ]))
      settled true s₁ id c p q l = (p, ground arith, l)
      settled false s₁ id c p q l = patched c (do_request send s₁ (patch id (is_enabled d))) p q l

      answered :
          (a : S × Result RequestError (ℕ × AlertDefinition F))
          → Accounts {S = S} (index + 1) (
              let (s₁, posted) = a in
              elim posted [
                | err x ↦ (s₁, r, some (not_imported (index + 1) d.name x))
                | ok (status, stored) ↦
                    let counted = count_answer send d status stored r in
                    if same_flag send stored.enabled (is_enabled d)
                    then (s₁, counted, none)
                    else (let (s₂, patched) = do_request send s₁ (patch stored.id (is_enabled d)) in
                        elim patched [
                          | err x ↦ (s₂, counted, some (not_enabled (index + 1) d.name x))
                          | ok _ ↦ (
                            s₂,
                            record counted { state_updated = counted.state_updated + 1 },
                            none,
                          )
                        ])
              ])
      answered (s₁, err x) = (ground arith, ground arith, ground arith)
      answered (s₁, ok (status, stored)) =
          let (p, q, l) = count_answer_lem d status stored r in
          settled (same_flag send stored.enabled (is_enabled d)) s₁ stored.id
            (count_answer send d status stored r) (ground arith) (ground arith) (ground arith)

  import_definitions-Accounts :
      (index : ℕ) (ds : List (Definition F)) (out : S × ImportResult × Option ImportError)
      → Accounts index out
      → Accounts (index + length ds) (import_definitions send index ds out)
  unfolding import_definitions
  import_definitions-Accounts index [] (s, r, none) h =
      subst (λ n. Accounts n (s, r, none)) (ground arith) h
  import_definitions-Accounts index ds (s, r, some (invalid_manifest x)) h = h
  import_definitions-Accounts index ds (s, r, some (not_imported n name x)) (h, l, u) =
      (h, ground arith, u)
  import_definitions-Accounts index ds (s, r, some (not_enabled n name x)) (h, l, u) =
      (h, ground arith, u)
  import_definitions-Accounts index (d ∷ ds) (s, r, none) h =
      subst
        (λ n.
          Accounts n (import_definitions send (suc index) ds (import_definition send index d s r)))
        (ground arith)
        (import_definitions-Accounts (suc index) ds (import_definition send index d s r) (
          subst (λ n. Accounts n (import_definition send index d s r)) (ground arith)
            (import_definition-Accounts index d s r h)))

  -- An import that ends without an error has counted every definition of the manifest once, as created or as
  -- existing, and its updates and mismatches are no more; one that fails at a definition has counted those before
  -- it, and that one too if only its flag could not be set; one of an invalid manifest has counted nothing.
  pub import_manifest-Accounts :
      ⦃fl : Float64 F⦄ (m : Manifest F) (s : S)
      → Accounts (length m.definitions) (import_manifest send m s)
  unfolding import_manifest
  import_manifest-Accounts m s = started (validate_manifest m)
    where
      started :
          (e : Option ManifestError)
          → Accounts {S = S} (length m.definitions) (elim e [
            | some x ↦ (s, empty_result, some (invalid_manifest x))
            | none ↦ import_definitions send 0 m.definitions (s, empty_result, none)
          ])
      started (some x) = refl
      started none =
          subst (λ n. Accounts n (import_definitions send 0 m.definitions (s, empty_result, none)))
            (ground arith)
            (import_definitions-Accounts 0 m.definitions (s, empty_result, none)
              (refl, ground arith, ground arith))
