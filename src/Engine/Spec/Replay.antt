-- ===== src/Engine/Spec/Replay.antt =====
-- Frames that have been evaluated are stale.
use alerts.Common.{
  ℕ, ◌≤◌, String, Bool, true, false, Option, none, some, List, [], ◌∷◌, ◌==◌, string_eq, nat_eq,
  if◌then◌else◌, ◌>>=◌, ◌≡◌, refl, ap, ◌∙◌, Bool-cases, inl, inr, All, arith,
}
use alerts.Rules.Evaluate.{evaluate_detailed}
use alerts.Engine.State.{CompiledDefinition}
use alerts.Model.{
  Zone, FactReference, Float64, Platform, Time, Observation, Alert, FeatureState,
  SeriesEvaluationState, series_key,
}
use alerts.Engine.Policy.{stale, stale_after}
use alerts.Engine.Routes.{Routes, definitions_for}
use alerts.Engine.Batch.{applies, with_zones, features_for, advance_series}
use alerts.Engine.Spec.{
  concluded, alerts_of, View, Outcome, prepend, move_series, spec_definitions, spec_step, spec_run,
}

module _ {F : Type 0} where
  -- The series of the view is past the frame.
  abbrev pub IsStale : View F → Observation F → Type 0
  IsStale v o = stale o (v.series (series_key o.series)) ≡ true

  -- A frame that was stale is stale after a frame that was not.
  stale_later :
      (o i : Observation F) (t r : ℕ) (status : String)
      → stale_after o t r status ≡ true
      → stale_after i t r status ≡ false
      → 1 ≤ i.candle.open_time
      → stale_after o i.candle.open_time i.revision i.status ≡ true
  unfolding stale_after
  stale_later o i t r status h k p = ground arith

  stale_self :
      (i : Observation F)
      → 1 ≤ i.candle.open_time
      → stale_after i i.candle.open_time i.revision i.status ≡ true
  unfolding stale_after
  stale_self i p = ground arith

  -- What a frame keeps when it is given the zones of its series
  with_zones_lem :
      (i : Observation F) (s : SeriesEvaluationState F) (o : Observation F)
      → stale_after o
          (with_zones i s).candle.open_time
          (with_zones i s).revision
          (with_zones i s).status
        ≡ stale_after o i.candle.open_time i.revision i.status
  unfolding with_zones
  with_zones_lem i s o = kept i.active_zones
    where
      given :
          (b : Bool)
          → (let z = if b then record i { active_zones = s.active_zones } else i in
              stale_after o z.candle.open_time z.revision z.status)
            ≡ stale_after o i.candle.open_time i.revision i.status
      given true = refl
      given false = refl

      kept :
          (zs : List (Zone F))
          → (let z : Observation F = elim zs [
            | [] ↦
                if i.status == "provisional" then record i { active_zones = s.active_zones } else i
            | x ∷ xs ↦ i
          ] in
              stale_after o z.candle.open_time z.revision z.status)
            ≡ stale_after o i.candle.open_time i.revision i.status
      kept [] = given (i.status == "provisional")
      kept (x ∷ xs) = refl

  -- The series of an outcome
  abbrev Kept : (String → SeriesEvaluationState F) → Outcome F → Type 0
  Kept series none = Unit
  Kept series (some (u, alerts)) = u.series ≡ series

  prepend-Kept :
      (series : String → SeriesEvaluationState F) (alerts : List (Alert F)) (n : Outcome F)
      → Kept series n
      → Kept series (prepend alerts n)
  prepend-Kept series alerts none h = h
  prepend-Kept series alerts (some (u, more)) h = h

  module _ ⦃fl : Float64 F⦄ ⦃pl : Platform F⦄ where
    advance_series_lem :
        (z : Observation F) (f : FeatureState F) (s : SeriesEvaluationState F) (o : Observation F)
        → stale o (advance_series z f s) ≡ stale_after o z.candle.open_time z.revision z.status
    unfolding stale advance_series
    advance_series_lem z f s o = either (z.status == "confirmed") _ _ refl refl
      where
        either :
            (b : Bool) (x y : SeriesEvaluationState F) {r : Bool}
            → stale o x ≡ r
            → stale o y ≡ r
            → stale o (if b then x else y) ≡ r
        either true x y h k = h
        either false x y h k = k

    spec_definitions-Kept :
        (now : Time) (key : String) (o : Observation F) (feature : FeatureState F)
        (cs : List (CompiledDefinition F)) (v : View F)
        → Kept v.series (spec_definitions now key o feature cs v)
    unfolding spec_definitions
    spec_definitions-Kept now key o feature [] v = refl
    spec_definitions-Kept now key o feature (c ∷ cs) v = elim (Bool-cases (applies c o)) [
      | inr n ↦ rw n (spec_definitions-Kept now key o feature cs v)
      | inl y ↦ rw y (
          evaluated (evaluate_detailed c.rule o feature)
            (λ r. spec_definitions-Kept now key o feature cs (concluded key o c.definition r.0 v)))
    ]
      where
        evaluated :
            (m : Option (Bool × List String × List (FactReference F)))
            → ((r : Bool × List String × List (FactReference F))
                → Kept v.series
                    (spec_definitions now key o feature cs (concluded key o c.definition r.0 v)))
            → Kept v.series (
                m >>= λ r.
                prepend
                  (alerts_of now key o c.definition r v)
                  (spec_definitions now key o feature cs (concluded key o c.definition r.0 v)))
        evaluated none go = tt
        evaluated (some r) go =
            prepend-Kept v.series (alerts_of now key o c.definition r v)
              (spec_definitions now key o feature cs (concluded key o c.definition r.0 v)) (go r)

    -- A frame keeps what is stale, and is stale itself afterwards.
    abbrev StaleAfter : View F → Observation F → Outcome F → Type 0
    StaleAfter v i none = Unit
    StaleAfter v i (some (w, alerts)) =
        IsStale w i × ((o : Observation F) → IsStale v o → IsStale w o)

    moved-StaleAfter :
        (v : View F) (i : Observation F) (f : FeatureState F) (n : Outcome F)
        → 1 ≤ i.candle.open_time
        → stale i (v.series (series_key i.series)) ≡ false
        → Kept v.series n
        → (let key = series_key i.series in
            StaleAfter v i
              (move_series key (advance_series (with_zones i (v.series key)) f (v.series key)) n))
    unfolding stale
    moved-StaleAfter v i f none p k h = tt
    moved-StaleAfter v i f (some (u, alerts)) p k h = (
      ap (λ b. stale i (if b then s' else u.series key)) ((string_eq.same_iff key key).1 refl)
          ∙ at_frame i
          ∙ stale_self i p,
      λ o x. elim (Bool-cases (key == series_key o.series)) [
        | inl y ↦
            let same = (string_eq.same_iff key (series_key o.series)).0 y in
            ap (λ b. stale o (if b then s' else u.series (series_key o.series))) y
            ∙ at_frame o
            ∙ stale_later o i s.last_open_time s.last_revision s.last_status
                (ap (λ j. stale o (v.series j)) same ∙ x) k p
        | inr z ↦
            ap (λ b. stale o (if b then s' else u.series (series_key o.series))) z
            ∙ ap (λ g. stale o (g (series_key o.series))) h
            ∙ x
      ],
    )
      where
        key : String
        key = series_key i.series

        s : SeriesEvaluationState F
        s = v.series key

        s' : SeriesEvaluationState F
        s' = advance_series (with_zones i s) f s

        at_frame :
            (o : Observation F) → stale o s' ≡ stale_after o i.candle.open_time i.revision i.status
        at_frame o = advance_series_lem (with_zones i s) f s o ∙ with_zones_lem i s o

    spec_step-StaleAfter :
        (routes : Routes F) (now : Time) (v : View F) (i : Observation F)
        → 1 ≤ i.candle.open_time
        → StaleAfter v i (spec_step routes now i v)
    unfolding spec_step
    spec_step-StaleAfter routes now v i p =
        let key = series_key i.series in
        let s = v.series key in
        let z = with_zones i s in
        elim (Bool-cases (stale i s)) [
          | inl y ↦ rw y (y, λ o x. x)
          | inr n ↦ rw n (
              moved-StaleAfter v i (features_for z s)
                (spec_definitions now key z (features_for z s) (definitions_for routes z.series) v)
                p n
                (spec_definitions-Kept now key z (features_for z s)
                  (definitions_for routes z.series) v))
        ]

    -- After a run all its frames are stale.
    abbrev pub AllStaleAfter : View F → List (Observation F) → Outcome F → Type 0
    AllStaleAfter v os none = Unit
    AllStaleAfter v os (some (w, alerts)) =
        All (IsStale w) os × ((o : Observation F) → IsStale v o → IsStale w o)

    pub spec_run-AllStaleAfter :
        (routes : Routes F) (now : Time) (os : List (Observation F)) (v : View F)
        → All (λ o. 1 ≤ o.candle.open_time) os
        → AllStaleAfter v os (spec_run routes now os v)
    unfolding spec_run
    spec_run-AllStaleAfter routes now [] v a = (tt, λ o x. x)
    spec_run-AllStaleAfter routes now (i ∷ os) v (p, a) =
        stepped (spec_step routes now i v) (spec_step-StaleAfter routes now v i p)
          (λ w. spec_run-AllStaleAfter routes now os w a)
      where
        ran :
            (w : View F) (alerts : List (Alert F)) (n : Outcome F)
            → IsStale w i
            → ((o : Observation F) → IsStale v o → IsStale w o)
            → AllStaleAfter w os n
            → AllStaleAfter v (i ∷ os) (prepend alerts n)
        ran w alerts none x k h = tt
        ran w alerts (some (u, more)) x k (h, l) = ((l i x, h), λ o y. l o (k o y))

        stepped :
            (n : Outcome F)
            → StaleAfter v i n
            → ((w : View F) → AllStaleAfter w os (spec_run routes now os w))
            → AllStaleAfter v
                (i ∷ os)
                (n >>= λ (w, alerts). prepend alerts (spec_run routes now os w))
        stepped none h go = tt
        stepped (some (w, alerts)) (x, k) go = ran w alerts (spec_run routes now os w) x k (go w)
