-- ===== src/Service/Acceptance.antt =====
-- What the service accepts.
use alerts.Common.{
  ℕ, ◌≤◌, ◌≡◌, refl, String, Bool, true, false, not, ◌&&◌, ◌||◌, Option, none, some, List, [], ◌∷◌,
  arith, any, ◌==◌, nat_eq, string_eq, if◌then◌else◌, Result, ok, err, Option-cases, inl, inr,
}
use alerts.Common.Int.{ℤ, pos, ltb_ℤ, pos_part, neg_part}
use alerts.Model.{Float64, Platform, Time, Series, Rule, Observation}
use alerts.Store.{Repository}
use alerts.Engine.State.{definitions_fresh}
use alerts.Service.Observations.{ObservationError, validate_observation, validate_all}
use alerts.Common.{is_some, Bool-cases}
use alerts.Rules.Kinds.{requires_intrabar}
use alerts.Rules.Validate.{RuleError, validate}
use alerts.Service.{
  ServiceError, Service, name_required, cooldown_negative, bad_evaluation_mode, bad_trigger_mode,
  intrabar_required, bad_rule, or_default, bad_observation, stale_definitions, check_definition,
  ingest_batch,
}

-- The checks of Create in their order.
accepted :
    (a b c e flip : Bool) (v : Option RuleError) (m₀ t₀ m t : String)
    → (let r : Result ServiceError (String × String) =
          if a
          then err name_required
          else if b
          then err cooldown_negative
          else if not c
          then err bad_evaluation_mode
          else if not e
          then err bad_trigger_mode
          else (elim v [
            | some x ↦ err (bad_rule x)
            | none ↦ if flip then err intrabar_required else ok (m₀, t₀)
          ]) in
        r)
      ≡ ok (m, t)
    → (a ≡ false)
      × (b ≡ false)
      × (c ≡ true)
      × (e ≡ true)
      × (v ≡ none)
      × (flip ≡ false)
      × (m₀ ≡ m)
      × (t₀ ≡ t)
accepted true b c e flip v m₀ t₀ m t h = cc
accepted false true c e flip v m₀ t₀ m t h = cc
accepted false false false e flip v m₀ t₀ m t h = cc
accepted false false true false flip v m₀ t₀ m t h = cc
accepted false false true true flip (some x) m₀ t₀ m t h = cc
accepted false false true true true none m₀ t₀ m t h = cc
accepted false false true true false none m₀ t₀ m t h = (refl, refl, refl, refl, refl, refl, cc, cc)

module _ {F : Type 0} ⦃fl : Float64 F⦄ where
  -- What Create has checked of a definition that it goes on to store.
  abbrev pub IsAcceptable : String → Series → Rule F → ℤ → String × String → Type 0
  IsAcceptable name series rule cooldown (m, t) =
      ((name == "") ≡ false)
      × ((series.symbol == "") ≡ false)
      × ((series.timeframe == "") ≡ false)
      × (neg_part cooldown ≤ pos_part cooldown)
      × ((m == "confirmed_close" || m == "intrabar" || m == "both") ≡ true)
      × ((t == "on_occurrence" || t == "once_per_bar" || t == "every_match") ≡ true)
      × (validate rule ≡ none)
      × (requires_intrabar rule ≡ true → (m == "confirmed_close") ≡ false)

  -- A definition that Create goes on to store has a name, a symbol and a timeframe, a cooldown that is not
  -- negative, modes of the two lists and a valid rule, and a rule that needs provisional frames does not have the
  -- mode confirmed_close.
  pub check_definition-IsAcceptable :
      (name : String) (series : Series) (rule : Rule F) (mode trigger : String) (cooldown : ℤ)
      (m t : String)
      → check_definition name series rule mode trigger cooldown ≡ ok (m, t)
      → IsAcceptable name series rule cooldown (m, t)
  unfolding check_definition
  check_definition-IsAcceptable name series rule mode trigger cooldown m t h =
      let (a, b, c, e, v, f, x, y) =
        accepted (name == "" || series.symbol == "" || series.timeframe == "")
          (ltb_ℤ cooldown (pos 0))
          (or_default mode "confirmed_close" == "confirmed_close"
            || or_default mode "confirmed_close" == "intrabar"
            || or_default mode "confirmed_close" == "both")
          (or_default trigger "on_occurrence" == "on_occurrence"
            || or_default trigger "on_occurrence" == "once_per_bar"
            || or_default trigger "on_occurrence" == "every_match")
          (requires_intrabar rule && or_default mode "confirmed_close" == "confirmed_close")
          (validate rule) (or_default mode "confirmed_close") (or_default trigger "on_occurrence") m
          t h in
      (
        ground arith,
        ground arith,
        ground arith,
        ground arith,
        rw x at c,
        rw y at e,
        v,
        λ needed. both_false needed (rw x at f),
      )
    where
      both_false : {p q : Bool} → p ≡ true → (p && q) ≡ false → q ≡ false
      both_false {p} {q} h k = ground arith

module _ {F : Type 0} ⦃fl : Float64 F⦄ where
  validate_all-any :
      (os : List (Observation F))
      → any (λ o. is_some (validate_observation o)) os ≡ true
      → (x : ObservationError) × (validate_all os ≡ some x)
  unfolding validate_all
  validate_all-any [] h = cc
  validate_all-any (o ∷ os) h = elim (Option-cases (validate_observation o)) [
    | inr (x, e) ↦ (x, rw (e, validate_all))
    | inl e ↦ let (x, k) = validate_all-any os (rw e at h) in (x, rw (e, k, validate_all))
  ]

  module _ ⦃pl : Platform F⦄ {S : Type 0} (repo : Repository F S) where
    -- A batch with an observation that validateObservation refuses is refused as a whole: the call returns an
    -- error, and the service, its engine and the repository are as they were.
    pub ingest_batch_refused :
        (v : Service F) (s : S) (checked now : Time) (duration : ℕ) (partition : ℤ)
        (os : List (Observation F))
        → any (λ o. is_some (validate_observation o)) os ≡ true
        → (x : ServiceError) × (ingest_batch repo v s checked now duration partition os
            ≡ some (v, s, err x))
    unfolding ingest_batch
    ingest_batch_refused v s checked now duration partition os h =
        let (x, k) = validate_all-any os h in
        elim (Bool-cases (definitions_fresh v.engine v.definition_max_staleness checked)) [
          | inl f ↦ (bad_observation x, rw (f, k, ingest_batch))
          | inr f ↦ (stale_definitions, rw (f, ingest_batch))
        ]
