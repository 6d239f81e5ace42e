-- ===== src/Service.antt =====
-- internal/service/service.go: definitions, alerts and the ingestion of frames over a repository.
pub mod Observations
pub mod Acceptance
pub mod Publishing
use alerts.Common.{
  ℕ, ◌+◌, ◌^◌, ◌%◌, String, ◌<>◌, Bool, true, false, not, ◌&&◌, ◌||◌, Option, none, some, List, [],
  ◌∷◌, length, ltb, leb, ◌==◌, nat_eq, string_eq, if◌then◌else◌, ◌>>=◌, Result, ok, err,
}
use alerts.Common.Int.{ℤ, pos, pos_part, ltb_ℤ}
use alerts.Model.{Float64, Platform, Time, Series, Rule, Observation, AlertDefinition, Alert}
use alerts.Rules.Kinds.{requires_intrabar}
use alerts.Rules.Validate.{RuleError, validate}
use alerts.Store.{StoreError, Repository}
use alerts.Engine.Identity.{uuid_of}
use alerts.Engine.State.{Engine, definitions_fresh}
use alerts.Engine.Partitions.{partition_of}
use alerts.Engine.Routes.{replace_definitions, upsert_definition}
use alerts.Engine.Run.{EngineError, evaluate_batch}
use alerts.Service.Observations.{ObservationError, validate_observation, validate_all}

pub data ServiceError : Type 0 where
  name_required cooldown_negative bad_evaluation_mode bad_trigger_mode intrabar_required
        stale_definitions :
      ServiceError
  bad_rule : RuleError → ServiceError
  store_error : StoreError → ServiceError
  not_replaced : String → RuleError → ServiceError
  bad_observation : ObservationError → ServiceError
  engine_error : EngineError → ServiceError

-- The counters that ingestion changes, uint64.
pub record Metrics : Type 0 where
  pub observations : ℕ
  pub alerts : ℕ
  pub batches : ℕ
  pub ingest_fails : ℕ
  pub eval_nanos : ℕ
  pub eval_buckets : List ℕ

-- The delay is not negative, which internal/config checks against the refresh interval. wake is the channel with room for one signal: whether a signal waits in it.
pub record Service (F : Type 0) : Type 0 where
  pub engine : Engine F
  pub metrics : Metrics
  pub wake : Bool
  pub activation_delay : ℕ
  pub definition_max_staleness : ℤ

abbrev add_64 : ℕ → ℕ → ℕ
add_64 a b = (a + b) % 2 ^ 64

-- evaluationBucketBounds, in nanoseconds
abbrev bucket_bounds : List ℕ
bucket_bounds =
    1000000 ∷ 5000000 ∷ 10000000 ∷ 25000000 ∷ 50000000 ∷ 100000000 ∷ 250000000 ∷ 500000000
    ∷ 1000000000 ∷ []

count_buckets : ℕ → List ℕ → List ℕ → List ℕ
count_buckets duration (bound ∷ bounds) (n ∷ ns) =
    let rest = count_buckets duration bounds ns in
    (if leb duration bound then add_64 n 1 else n) ∷ rest
count_buckets duration bounds ns = ns

abbrev pub or_default : String → String → String
or_default text default = if text == "" then default else text

-- What Create asks of a definition: the evaluation mode and the trigger mode with their defaults, or an error.
unfoldable pub check_definition :
    {F : Type 0} ⦃fl : Float64 F⦄
    → String
    → Series
    → Rule F
    → String
    → String
    → ℤ
    → Result ServiceError (String × String)
unfolding validate requires_intrabar
check_definition name series rule mode trigger cooldown =
    let m = or_default mode "confirmed_close" in
    let t = or_default trigger "on_occurrence" in
    if name == "" || series.symbol == "" || series.timeframe == ""
    then err name_required
    else if ltb_ℤ cooldown (pos 0)
    then err cooldown_negative
    else if not (m == "confirmed_close" || m == "intrabar" || m == "both")
    then err bad_evaluation_mode
    else if not (t == "on_occurrence" || t == "once_per_bar" || t == "every_match")
    then err bad_trigger_mode
    else (elim (validate rule) [
      | some e ↦ err (bad_rule e)
      | none ↦
          if requires_intrabar rule && m == "confirmed_close"
          then err intrabar_required
          else ok (m, t)
    ])

-- The limit that ListAlerts passes on.
unfoldable pub clamp_limit : ℤ → ℕ
clamp_limit limit =
    if not (ltb_ℤ (pos 0) limit)
    then 100
    else if ltb_ℤ (pos 1000) limit
    then 1000
    else pos_part limit

module _ {F : Type 0} ⦃fl : Float64 F⦄ ⦃pl : Platform F⦄ {S : Type 0} (repo : Repository F S) where
  unfoldable pub list_alerts : S → ℕ → ℤ → Result StoreError (List (Alert F))
  unfolding clamp_limit
  list_alerts s after limit = repo.list_alerts s after (clamp_limit limit)

  -- RefreshDefinitions, at the clock reading now.
  unfoldable pub refresh_definitions :
      Service F → S → Time → Service F × Result ServiceError (Unit {0})
  unfolding replace_definitions
  refresh_definitions v s now = elim (repo.list_definitions s now) [
    | err x ↦ (v, err (store_error x))
    | ok ds ↦
        let (e, outcome) = replace_definitions ds now v.engine in
        (
          record v { engine = e },
          elim outcome [ err (id, x) ↦ err (not_replaced id x) | ok u ↦ ok u ],
        )
  ]

  -- What follows the repository's answer: the definition is compiled into the engine.
  unfoldable pub upsert_stored :
      Service F → S → AlertDefinition F → Service F × S × Result ServiceError (AlertDefinition F)
  unfolding upsert_definition
  upsert_stored v s d =
      let (e, outcome) = upsert_definition d v.engine in
      (record v { engine = e }, s, elim outcome [ err x ↦ err (bad_rule x) | ok u ↦ ok d ])

  unfoldable pub set_enabled :
      Service F → S → String → Bool → Time → Service F × S × Result ServiceError (AlertDefinition F)
  unfolding upsert_stored
  set_enabled v s id enabled now =
      let (s', outcome) = repo.set_enabled s id enabled (now + v.activation_delay) now in
      elim outcome [ err x ↦ (v, s', err (store_error x)) | ok d ↦ upsert_stored v s' d ]

  -- Delete: the archived definition stays in force until its time.
  unfoldable pub delete :
      Service F → S → String → Time → Service F × S × Result ServiceError (Unit {0})
  unfolding refresh_definitions
  delete v s id now =
      let (s', outcome) = repo.archive_definition s id (now + v.activation_delay) in
      elim outcome [
        | err x ↦ (v, s', err (store_error x))
        | ok u ↦ let (w, done) = refresh_definitions v s' now in (w, s', done)
      ]

  -- Create. The canonical JSON of what the hash covers is a function of package encoding/json.
  module _ (canonical : Series → Rule F → String → String → ℤ → String) where
    unfoldable pub new_definition :
        Service F → String → Series → Rule F → ℤ → Time → String × String → AlertDefinition F
    unfolding uuid_of
    new_definition v name series rule cooldown now (mode, trigger) =
        let sum = pl.sha256_hex (canonical series rule mode trigger cooldown) in
        record {
          id = uuid_of sum;
          version = pos 1;
          definition_hash = "sha256:" <> sum;
          name = name;
          enabled = true;
          series = series;
          rule = rule;
          evaluation_mode = mode;
          trigger_mode = trigger;
          cooldown_seconds = cooldown;
          created_at = now;
          updated_at = now;
          effective_at = now + v.activation_delay;
        }

    unfoldable pub create :
        Service F
        → S
        → String
        → Series
        → Rule F
        → String
        → String
        → ℤ
        → Time
        → Service F × S × Result ServiceError (AlertDefinition F × Bool)
    unfolding check_definition new_definition upsert_definition
    create v s name series rule mode trigger cooldown now =
        elim (check_definition name series rule mode trigger cooldown) [
          | err x ↦ (v, s, err x)
          | ok modes ↦
              let (s', outcome) =
                repo.create_definition s (new_definition v name series rule cooldown now modes) in
              elim outcome [
                | err x ↦ (v, s', err (store_error x))
                | ok (d, is_new) ↦
                    let (e, compiled) = upsert_definition d v.engine in
                    (
                      record v { engine = e },
                      s',
                      elim compiled [ err x ↦ err (bad_rule x) | ok u ↦ ok (d, is_new) ],
                    )
              ]
        ]

  -- The counters and the signal after a call of EvaluateBatch that took a time.
  unfoldable pub account :
      Service F → Engine F → ℕ → ℕ → Result EngineError (List (Alert F)) → Service F
  unfolding count_buckets
  account v e duration n outcome =
      let m = record v.metrics {
        batches = add_64 v.metrics.batches 1;
        eval_nanos = add_64 v.metrics.eval_nanos duration;
        eval_buckets = count_buckets duration bucket_bounds v.metrics.eval_buckets;
      } in
      elim outcome [
        | err x ↦ record v {
          engine = e;
          metrics = record m { ingest_fails = add_64 m.ingest_fails 1 };
        }
        | ok found ↦ record v {
          engine = e;
          metrics = record m {
            observations = add_64 m.observations n;
            alerts = add_64 m.alerts (length found);
          };
          wake = v.wake || ltb 0 (length found);
        }
      ]

  -- IngestBatch: the clock readings at the check of the definitions' freshness and at the evaluation, and the
  -- nanoseconds that this took. none is a panic.
  unfoldable pub ingest_batch :
      Service F
      → S
      → Time
      → Time
      → ℕ
      → ℤ
      → List (Observation F)
      → Option (Service F × S × Result ServiceError (List (Alert F)))
  unfolding definitions_fresh validate_all account evaluate_batch
  ingest_batch v s checked now duration partition os =
      if not (definitions_fresh v.engine v.definition_max_staleness checked)
      then some (v, s, err stale_definitions)
      else (elim (validate_all os) [
        | some x ↦ some (v, s, err (bad_observation x))
        | none ↦ evaluate_batch repo v.engine s partition now os >>= λ (e, s', outcome). some (
          account v e duration (length os) outcome,
          s',
          elim outcome [ err x ↦ err (engine_error x) | ok found ↦ ok found ],
        )
      ])

  unfoldable pub ingest :
      Service F
      → S
      → Time
      → Time
      → ℕ
      → Observation F
      → Option (Service F × S × Result ServiceError (List (Alert F)))
  unfolding ingest_batch validate_observation partition_of
  ingest v s checked now duration o = elim (validate_observation o) [
    | some x ↦ some (v, s, err (bad_observation x))
    | none ↦
        ingest_batch v s checked now duration
          (pos (partition_of (length v.engine.partitions) o.series)) (o ∷ [])
  ]
