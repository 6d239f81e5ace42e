-- ===== src/Api.antt =====
-- internal/api/server.go: the handlers over the service. The multiplexer and encoding/json are not modelled: a
-- request comes as its route with what its body decodes to, where an error is its message. Messages of problems are
-- left out.
pub mod Access
use alerts.Common.{
  ℕ, String, Bool, true, false, not, ◌&&◌, Option, none, some, List, ◌==◌, string_eq, if◌then◌else◌,
  ◌>>=◌, Result, ok, err,
}
use alerts.Common.Int.{ℤ, pos, pos_part, ltb_ℤ}
use alerts.Common.Text.{codes, same_codes, atoi}
use alerts.Model.{Float64, Platform, Time, Series, Rule, Observation, AlertDefinition, Alert}
use alerts.Store.{StoreError, not_found, Repository}
use alerts.Signals.{Event, Json, after_prefix, adapt}
use alerts.Service.{
  ServiceError, store_error, Service, create, set_enabled, delete, list_alerts, ingest,
}

pub record Options : Type 0 where
  pub api_token : String
  pub ingest_token : String
  pub insecure : Bool

pub record CreateRequest (F : Type 0) : Type 0 where
  pub name : String
  pub series : Series
  pub rule : Rule F
  pub evaluation_mode : String
  pub trigger_mode : String
  pub cooldown_seconds : ℤ

-- The routes behind the control token
pub data Control (F : Type 0) : Type 0 where
  rule_types definitions : Control F
  new_definition : Result String (CreateRequest F) → Control F
  update_definition : String → Result String (Option Bool) → Control F
  delete_definition : String → Control F
  events : String → String → Control F

-- The routes behind the ingest token
pub data Intake (F : Type 0) : Type 0 where
  observations : Result String (Observation F) → Intake F
  signal_events : Result String (Event F) → Intake F

pub data Route (F : Type 0) : Type 0 where
  healthz : Route F
  control : Control F → Route F
  intake : Intake F → Route F

pub data Body (F : Type 0) : Type 0 where
  healthy catalog no_content : Body F
  problem : String → Body F
  definition : AlertDefinition F → Body F
  definition_list : List (AlertDefinition F) → Body F
  alert_list accepted : List (Alert F) → Body F

pub record Response (F : Type 0) : Type 0 where
  pub status : ℕ
  pub body : Body F

abbrev pub respond : {F : Type 0} → ℕ → Body F → Response F
respond status body = record { status = status; body = body }

-- The Authorization header without its prefix is the token.
unfoldable pub bearer_ok : String → String → Bool
unfolding after_prefix codes
bearer_ok header expected = elim (after_prefix (codes "Bearer ") (codes header)) [
  | some got ↦ same_codes got (codes expected)
  | none ↦ same_codes (codes header) (codes expected)
]

-- parseInt64 and parseInt
unfoldable pub parse_int64 : String → Option ℕ
unfolding atoi codes
parse_int64 value =
    if value == ""
    then some 0
    else (atoi (codes value) >>= λ n. if ltb_ℤ n (pos 0) then none else some (pos_part n))

unfoldable pub parse_int : String → Option ℤ
unfolding atoi codes
parse_int value =
    if value == ""
    then some (pos 100)
    else (atoi (codes value) >>= λ n. if ltb_ℤ n (pos 1) then none else some n)

-- service.IsNotFound
abbrev pub is_not_found : ServiceError → Bool
is_not_found (store_error not_found) = true
is_not_found x = false

-- The clock readings of a call, and the nanoseconds that an evaluation takes.
pub record Clock : Type 0 where
  pub checked : Time
  pub now : Time
  pub duration : ℕ

module _ {F : Type 0} ⦃fl : Float64 F⦄ ⦃pl : Platform F⦄ {S : Type 0} (repo : Repository F S)
    (json : Json F) (canonical : Series → Rule F → String → String → ℤ → String) where
  -- A failed change: not found, or an error of the store.
  abbrev failed_change : ServiceError → Response F
  failed_change x =
      if is_not_found x
      then respond 404 (problem "not_found")
      else respond 500 (problem "store_error")

  unfoldable pub post_definition :
      Clock → Result String (CreateRequest F) → Service F → S → (Service F × S) × Response F
  unfolding create
  post_definition clock (err x) v s = ((v, s), respond 400 (problem "invalid_json"))
  post_definition clock (ok r) v s =
      let (v', s', outcome) =
        create repo canonical v s r.name r.series r.rule r.evaluation_mode r.trigger_mode
          r.cooldown_seconds clock.now in
      (
        (v', s'),
        elim outcome [
          | err x ↦ respond 422 (problem "invalid_definition")
          | ok (d, created) ↦ respond (if created then 201 else 200) (definition d)
        ],
      )

  unfoldable pub get_definitions : Clock → Service F → S → (Service F × S) × Response F
  get_definitions clock v s = (
    (v, s),
    elim (repo.list_definitions s clock.now) [
      | err x ↦ respond 500 (problem "store_error")
      | ok ds ↦ respond 200 (definition_list ds)
    ],
  )

  unfoldable pub patch_definition :
      Clock → String → Result String (Option Bool) → Service F → S → (Service F × S) × Response F
  unfolding set_enabled
  patch_definition clock id (err x) v s = ((v, s), respond 400 (problem "invalid_json"))
  patch_definition clock id (ok none) v s = ((v, s), respond 422 (problem "invalid_definition"))
  patch_definition clock id (ok (some enabled)) v s =
      let (v', s', outcome) = set_enabled repo v s id enabled clock.now in
      ((v', s'), elim outcome [ err x ↦ failed_change x | ok d ↦ respond 200 (definition d) ])

  unfoldable pub erase_definition : Clock → String → Service F → S → (Service F × S) × Response F
  unfolding delete
  erase_definition clock id v s =
      let (v', s', outcome) = delete repo v s id clock.now in
      ((v', s'), elim outcome [ err x ↦ failed_change x | ok u ↦ respond 204 no_content ])

  unfoldable pub list_events : String → String → Service F → S → (Service F × S) × Response F
  unfolding parse_int64 parse_int list_alerts
  list_events after limit v s = (
    (v, s),
    elim (parse_int64 after) [
      | none ↦ respond 400 (problem "invalid_cursor")
      | some from ↦ elim (parse_int limit) [
        | none ↦ respond 400 (problem "invalid_limit")
        | some n ↦ elim (list_alerts repo s from n) [
          | err x ↦ respond 500 (problem "store_error")
          | ok found ↦ respond 200 (alert_list found)
        ]
      ]
    ],
  )

  unfoldable pub serve_control : Clock → Control F → Service F → S → (Service F × S) × Response F
  unfolding post_definition get_definitions patch_definition erase_definition list_events
  serve_control clock rule_types v s = ((v, s), respond 200 catalog)
  serve_control clock definitions v s = get_definitions clock v s
  serve_control clock (new_definition r) v s = post_definition clock r v s
  serve_control clock (update_definition id r) v s = patch_definition clock id r v s
  serve_control clock (delete_definition id) v s = erase_definition clock id v s
  serve_control clock (events after limit) v s = list_events after limit v s

  -- The answer to an observation; none is a panic of the evaluation.
  unfoldable pub take_observation :
      Clock → Observation F → Service F → S → Option ((Service F × S) × Response F)
  unfolding ingest
  take_observation clock o v s =
      ingest repo v s clock.checked clock.now clock.duration o >>= λ (v', s', outcome). some (
        (v', s'),
        elim outcome [
          | err x ↦ respond 422 (problem "invalid_observation")
          | ok found ↦ respond 202 (accepted found)
        ],
      )

  unfoldable pub serve_intake :
      Clock → Intake F → Service F → S → Option ((Service F × S) × Response F)
  unfolding take_observation adapt
  serve_intake clock (observations (err x)) v s =
      some ((v, s), respond 400 (problem "invalid_json"))
  serve_intake clock (observations (ok o)) v s = take_observation clock o v s
  serve_intake clock (signal_events (err x)) v s =
      some ((v, s), respond 400 (problem "invalid_json"))
  serve_intake clock (signal_events (ok event)) v s = elim (adapt json event) [
    | err x ↦ some ((v, s), respond 422 (problem "invalid_signal_event"))
    | ok o ↦ take_observation clock o v s
  ]

  -- The middleware and the handler of a route
  unfoldable pub serve :
      Options → Clock → String → Route F → Service F → S → Option ((Service F × S) × Response F)
  unfolding serve_control serve_intake bearer_ok
  serve options clock header healthz v s = some ((v, s), respond 200 healthy)
  serve options clock header (control r) v s =
      if not options.insecure && not (bearer_ok header options.api_token)
      then some ((v, s), respond 401 (problem "unauthorized"))
      else some (serve_control clock r v s)
  serve options clock header (intake r) v s =
      let served = serve_intake clock r v s in
      if not options.insecure && not (bearer_ok header options.ingest_token)
      then some ((v, s), respond 401 (problem "unauthorized"))
      else served
