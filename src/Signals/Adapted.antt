-- ===== src/Signals/Adapted.antt =====
-- What the service may rely on in an observation that the adapter made.
use mathlib.Core.Path.{subst}
use alerts.Common.{
  ℕ, Bool, true, false, not, ◌||◌, Option, none, some, List, [], ◌∷◌, ◌++◌, ◌==◌, nat_eq, string_eq,
  if◌then◌else◌, Result, ok, err, ◌≡◌, ◌≢◌, refl, ap, Bool-cases, inl, inr, All, arith,
}
use alerts.Common.Int.{ℤ}
use alerts.Common.Text.{codes, atoi}
use alerts.Model.{Float64, Indicator, Observation}
use alerts.Signals.{
  Event, Json, Output, SignalError, bad_envelope, incomplete_analysis, wrong_correlation,
  bare_observation, analysis_event_type, add_average, add_listed, decoded, invalid_output,
  add_output, add_outputs, adapt, after_prefix,
}

-- An observation without what the outputs hold.
abbrev pub without_outputs : {F : Type 0} → Observation F → Observation F
without_outputs o = record o {
  indicators = [];
  active_zones = [];
  zone_transitions = [];
  patterns = [];
}

abbrev pub IsAverage : {F : Type 0} → Indicator F → Type 0
IsAverage i = (i.name ≡ "ema") × (i.ready ≡ true)

All-append_one {ℓ} :
    {A : Type ℓ} (P : A → Type 0) (xs : List A) (x : A) → All P xs → P x → All P (xs ++ x ∷ [])
All-append_one P [] x h p = (p, tt)
All-append_one P (y ∷ xs) x (q, h) p = (q, All-append_one P xs x h p)

module _ {F : Type 0} where
  -- An observation with the given part besides the outputs, and with averages that are ready.
  abbrev pub IsFrom : Observation F → Observation F → Type 0
  IsFrom b o = (without_outputs o ≡ b) × All IsAverage o.indicators

  -- The same of a result that is no error.
  abbrev IsResultFrom : Observation F → Result SignalError (Observation F) → Type 0
  IsResultFrom b (err x) = Unit
  IsResultFrom b (ok o) = IsFrom b o

  module _ ⦃fl : Float64 F⦄ (json : Json F) (b : Observation F) where
    decoded-IsResultFrom :
        {A : Type 0} (output : Output) (xs : Option (List A)) (f : List A → Observation F)
        → ((ys : List A) → IsFrom b (f ys))
        → IsResultFrom b (decoded json output xs f)
    unfolding decoded
    decoded-IsResultFrom output none f h = tt
    decoded-IsResultFrom output (some ys) f h = h ys

    add_average-IsResultFrom :
        (output : Output) (period : List ℕ) (o : Observation F)
        → IsFrom b o
        → IsResultFrom b (add_average json output period o)
    unfolding add_average
    add_average-IsResultFrom output period o (h, a) =
        read (atoi period) (json.number_of output.value)
      where
        read :
            (m : Option ℤ) (x : Option F)
            → IsResultFrom b (elim m [
              | none ↦ err (invalid_output output.name)
              | some n ↦ elim x [
                | none ↦ err (invalid_output output.name)
                | some y ↦ ok (record o {
                  indicators =
                      o.indicators
                      ++ record { name = "ema"; period = n; value = y; ready = true } ∷ [];
                })
              ]
            ])
        read none x = tt
        read (some n) none = tt
        read (some n) (some y) = (h, All-append_one IsAverage o.indicators _ a (refl, refl))

    add_listed-IsResultFrom :
        (output : Output) (o : Observation F)
        → IsFrom b o
        → IsResultFrom b (add_listed json output o)
    unfolding add_listed
    add_listed-IsResultFrom output o h =
        elim (Bool-cases (output.name == "fvgs" || output.name == "order_blocks")) [
          | inl y ↦ rw y (decoded-IsResultFrom output (json.zones_of output.value) _ λ zs. h)
          | inr n ↦ rw n (elim (Bool-cases (output.name == "zone_transitions")) [
            | inl y ↦ rw y (decoded-IsResultFrom output (json.points_of output.value) _ λ ps. h)
            | inr n ↦ rw n (elim (Bool-cases (output.name == "pattern_occurrences")) [
              | inl y ↦ rw y (decoded-IsResultFrom output (json.points_of output.value) _ λ ps. h)
              | inr n ↦ rw n h
            ])
          ])
        ]

    add_output-IsResultFrom :
        (output : Output) (o : Observation F)
        → IsFrom b o
        → IsResultFrom b (add_output json output o)
    unfolding add_output
    add_output-IsResultFrom output o h = switched (after_prefix (codes "ema_") (codes output.name))
      where
        switched :
            (m : Option (List ℕ))
            → IsResultFrom b (elim m [
              | some period ↦ add_average json output period o
              | none ↦ add_listed json output o
            ])
        switched (some period) = add_average-IsResultFrom output period o h
        switched none = add_listed-IsResultFrom output o h

    add_outputs-IsResultFrom :
        (outputs : List Output) (r : Result SignalError (Observation F))
        → IsResultFrom b r
        → IsResultFrom b (add_outputs json outputs r)
    unfolding add_outputs
    add_outputs-IsResultFrom outputs (err x) h = h
    add_outputs-IsResultFrom [] (ok o) h = h
    add_outputs-IsResultFrom (output ∷ outputs) (ok o) h =
        add_outputs-IsResultFrom outputs (add_output json output o)
          (add_output-IsResultFrom output o h)

  -- What the adapter has checked of an event.
  abbrev pub IsComplete : Event F → Type 0
  IsComplete event =
      (event.type ≡ analysis_event_type)
      × (event.id ≢ "")
      × (event.correlation_id ≢ "")
      × (event.analysis_name ≡ "smc.market_state")
      × (event.bar.source_id ≡ event.correlation_id)

  -- What an observation takes from its event, field by field.
  abbrev pub Carries : Event F → Observation F → Type 0
  Carries event o =
      (o.schema ≡ "alerts.observation.v1")
      × (o.source_event_id ≡ event.id)
      × (o.correlation_id ≡ event.correlation_id)
      × (o.occurred_at ≡ event.time)
      × (o.status ≡ event.bar.status)
      × (o.revision ≡ event.analysis_revision)
      × (o.reset ≡ event.reset)
      × (o.history ≡ event.history)
      × (o.series ≡ event.series)
      × (o.candle ≡ event.bar.candle)
      × (o.feature_algorithm.name ≡ event.analysis_name)
      × (o.feature_algorithm.version ≡ event.algorithm_version)
      × (o.feature_algorithm.config_hash ≡ event.config_hash)

  bare_observation-Carries :
      (event : Event F) (o : Observation F)
      → without_outputs o ≡ bare_observation event
      → Carries event o
  bare_observation-Carries event o e = (
    ap (λ x. x.schema) e,
    ap (λ x. x.source_event_id) e,
    ap (λ x. x.correlation_id) e,
    ap (λ x. x.occurred_at) e,
    ap (λ x. x.status) e,
    ap (λ x. x.revision) e,
    ap (λ x. x.reset) e,
    ap (λ x. x.history) e,
    ap (λ x. x.series) e,
    ap (λ x. x.candle) e,
    ap (λ x. x.feature_algorithm.name) e,
    ap (λ x. x.feature_algorithm.version) e,
    ap (λ x. x.feature_algorithm.config_hash) e,
  )

  module _ ⦃fl : Float64 F⦄ (json : Json F) where
    adapt_checked :
        (event : Event F) (o : Observation F)
        → adapt json event ≡ ok o
        → IsComplete event × IsFrom (bare_observation event) o
    unfolding adapt
    adapt_checked event o h =
        checked
          (not (event.type == analysis_event_type) || event.id == "" || event.correlation_id == "")
          (not (event.analysis_name == "smc.market_state"))
          (event.bar.source_id == "" || not (event.bar.source_id == event.correlation_id))
          (λ a b c. (
            (string_eq.same_iff event.type analysis_event_type).0 (ground arith),
            (λ k. let e = (string_eq.same_iff event.id "").1 k in ground arith),
            (λ k. let e = (string_eq.same_iff event.correlation_id "").1 k in ground arith),
            (string_eq.same_iff event.analysis_name "smc.market_state").0 (ground arith),
            (string_eq.same_iff event.bar.source_id event.correlation_id).0 (ground arith),
          ))
          h
      where
        checked :
            {P : Type 0} (a b c : Bool)
            → (a ≡ false → b ≡ false → c ≡ false → P)
            → (if a
                then err bad_envelope
                else if b
                then err incomplete_analysis
                else if c
                then err wrong_correlation
                else add_outputs json event.outputs (ok (bare_observation event)))
              ≡ ok o
            → P × IsFrom (bare_observation event) o
        checked true b c f k = cc
        checked false true c f k = cc
        checked false false true f k = cc
        checked false false false f k = (
          f refl refl refl,
          subst (IsResultFrom (bare_observation event)) k (
              add_outputs-IsResultFrom json (bare_observation event) event.outputs
                (ok (bare_observation event)) (refl, tt)),
        )

    -- An event that the adapter takes is a complete market state with an id and a correlation id, the source of
    -- its bar; the observation has each of the event's fields under its own name, whatever the outputs are, and
    -- no indicators but averages that are ready.
    pub adapt-IsFrom :
        (event : Event F) (o : Observation F)
        → adapt json event ≡ ok o
        → IsComplete event × Carries event o × All IsAverage o.indicators
    adapt-IsFrom event o h =
        let (c, from) = adapt_checked event o h in
        (c, bare_observation-Carries event o from.0, from.1)
