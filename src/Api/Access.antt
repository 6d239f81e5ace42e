-- ===== src/Api/Access.antt =====
-- What requests over the API may change.
use mathlib.Core.Path.{subst}
use alerts.Common.{
  ℕ, String, Bool, true, false, not, ◌&&◌, ◌||◌, Option, none, some, List, ◌==◌, string_eq, nat_eq,
  if◌then◌else◌, ◌>>=◌, Result, ok, err, ◌≡◌, ◌≢◌, refl, sym, ◌∙◌, Bool-cases, inl, inr, ◌⊎◌,
}
use alerts.Common.Int.{ℤ}
use alerts.Model.{Float64, Platform, Series, Rule, Observation, AlertDefinition, Alert}
use alerts.Store.{Repository}
use alerts.Signals.{SignalError, Json, adapt}
use alerts.Service.{ServiceError, Service, create, set_enabled, delete, ingest}
use alerts.Api.{
  Options, CreateRequest, Control, rule_types, definitions, new_definition, update_definition,
  delete_definition, events, Intake, observations, signal_events, Route, healthz, control, intake,
  Response, respond, problem, definition, accepted, no_content, bearer_ok, is_not_found, Clock,
  failed_change, post_definition, get_definitions, patch_definition, erase_definition, list_events,
  serve_control, take_observation, serve_intake, serve,
}

-- The statuses of a request that was not read: malformed, or without its token.
abbrev pub is_unread : ℕ → Bool
is_unread status = status == 400 || status == 401

module _ {F : Type 0} ⦃fl : Float64 F⦄ ⦃pl : Platform F⦄ {S : Type 0} (repo : Repository F S)
    (json : Json F) (canonical : Series → Rule F → String → String → ℤ → String) where
  -- A response that changed nothing, or one to a request that was read.
  abbrev Spares : Service F → S → (Service F × S) × Response F → Type 0
  Spares v s ((v', s'), r) = ((v' ≡ v) × (s' ≡ s)) ⊎ (is_unread r.status ≡ false)

  failed_change-Spares :
      (v : Service F) (s : S) (w : Service F × S) (x : ServiceError)
      → Spares v s (w, failed_change repo json canonical x)
  failed_change-Spares v s w x = elim (Bool-cases (is_not_found x)) [
    | inl y ↦ rw y (inr refl)
    | inr n ↦ rw n (inr refl)
  ]

  post_definition-Spares :
      (clock : Clock) (r : Result String (CreateRequest F)) (v : Service F) (s : S)
      → Spares v s (post_definition repo json canonical clock r v s)
  unfolding post_definition
  post_definition-Spares clock (err x) v s = inl (refl, refl)
  post_definition-Spares clock (ok r) v s =
      let out =
        create repo canonical v s r.name r.series r.rule r.evaluation_mode r.trigger_mode
          r.cooldown_seconds clock.now in
      answered (out.0, out.1) out.2
    where
      answered :
          (w : Service F × S) (o : Result ServiceError (AlertDefinition F × Bool))
          → Spares v s (
            w,
            elim o [
              | err x ↦ respond 422 (problem "invalid_definition")
              | ok (d, created) ↦ respond (if created then 201 else 200) (definition d)
            ],
          )
      answered w (err x) = inr refl
      answered w (ok (d, true)) = inr refl
      answered w (ok (d, false)) = inr refl

  patch_definition-Spares :
      (clock : Clock) (id : String) (r : Result String (Option Bool)) (v : Service F) (s : S)
      → Spares v s (patch_definition repo json canonical clock id r v s)
  unfolding patch_definition
  patch_definition-Spares clock id (err x) v s = inl (refl, refl)
  patch_definition-Spares clock id (ok none) v s = inl (refl, refl)
  patch_definition-Spares clock id (ok (some enabled)) v s =
      let out = set_enabled repo v s id enabled clock.now in answered (out.0, out.1) out.2
    where
      answered :
          (w : Service F × S) (o : Result ServiceError (AlertDefinition F))
          → Spares v s (
            w,
            elim o [
              | err x ↦ failed_change repo json canonical x
              | ok d ↦ respond 200 (definition d)
            ],
          )
      answered w (err x) = failed_change-Spares v s w x
      answered w (ok d) = inr refl

  erase_definition-Spares :
      (clock : Clock) (id : String) (v : Service F) (s : S)
      → Spares v s (erase_definition repo json canonical clock id v s)
  unfolding erase_definition
  erase_definition-Spares clock id v s =
      let out = delete repo v s id clock.now in answered (out.0, out.1) out.2
    where
      answered :
          (w : Service F × S) (o : Result ServiceError (Unit {0}))
          → Spares v s (
            w,
            elim o [ err x ↦ failed_change repo json canonical x | ok u ↦ respond 204 no_content ],
          )
      answered w (err x) = failed_change-Spares v s w x
      answered w (ok u) = inr refl

  serve_control-Spares :
      (clock : Clock) (r : Control F) (v : Service F) (s : S)
      → Spares v s (serve_control repo json canonical clock r v s)
  unfolding serve_control get_definitions list_events
  serve_control-Spares clock rule_types v s = inl (refl, refl)
  serve_control-Spares clock definitions v s = inl (refl, refl)
  serve_control-Spares clock (new_definition r) v s = post_definition-Spares clock r v s
  serve_control-Spares clock (update_definition id r) v s = patch_definition-Spares clock id r v s
  serve_control-Spares clock (delete_definition id) v s = erase_definition-Spares clock id v s
  serve_control-Spares clock (events after limit) v s = inl (refl, refl)

  -- The same of a handler that may panic.
  abbrev SparesIf : Service F → S → Option ((Service F × S) × Response F) → Type 0
  SparesIf v s none = Unit
  SparesIf v s (some out) = Spares v s out

  take_observation-SparesIf :
      (clock : Clock) (o : Observation F) (v : Service F) (s : S)
      → SparesIf v s (take_observation repo json canonical clock o v s)
  unfolding take_observation
  take_observation-SparesIf clock o v s =
      took (ingest repo v s clock.checked clock.now clock.duration o)
    where
      took :
          (m : Option (Service F × S × Result ServiceError (List (Alert F))))
          → SparesIf v s (
              m >>= λ (v', s', outcome). some (
                (v', s'),
                elim outcome [
                  | err x ↦ respond 422 (problem "invalid_observation")
                  | ok found ↦ respond 202 (accepted found)
                ],
              ))
      took none = tt
      took (some (v', s', err x)) = inr refl
      took (some (v', s', ok found)) = inr refl

  serve_intake-SparesIf :
      (clock : Clock) (r : Intake F) (v : Service F) (s : S)
      → SparesIf v s (serve_intake repo json canonical clock r v s)
  unfolding serve_intake
  serve_intake-SparesIf clock (observations (err x)) v s = inl (refl, refl)
  serve_intake-SparesIf clock (observations (ok o)) v s = take_observation-SparesIf clock o v s
  serve_intake-SparesIf clock (signal_events (err x)) v s = inl (refl, refl)
  serve_intake-SparesIf clock (signal_events (ok event)) v s = adapted (adapt json event)
    where
      adapted :
          (r : Result SignalError (Observation F))
          → SparesIf v s (elim r [
            | err x ↦ some ((v, s), respond 422 (problem "invalid_signal_event"))
            | ok o ↦ take_observation repo json canonical clock o v s
          ])
      adapted (err x) = inl (refl, refl)
      adapted (ok o) = take_observation-SparesIf clock o v s

  serve-SparesIf :
      (options : Options) (clock : Clock) (header : String) (r : Route F) (v : Service F) (s : S)
      → SparesIf v s (serve repo json canonical options clock header r v s)
  unfolding serve
  serve-SparesIf options clock header healthz v s = inl (refl, refl)
  serve-SparesIf options clock header (control r) v s =
      elim (Bool-cases (not options.insecure && not (bearer_ok header options.api_token))) [
        | inl y ↦ rw y (inl (refl, refl))
        | inr n ↦ rw n (serve_control-Spares clock r v s)
      ]
  serve-SparesIf options clock header (intake r) v s =
      elim (Bool-cases (not options.insecure && not (bearer_ok header options.ingest_token))) [
        | inl y ↦ rw y (inl (refl, refl))
        | inr n ↦ rw n (serve_intake-SparesIf clock r v s)
      ]

  -- A request that is answered with the status 400 or 401, as malformed or without its token, has changed neither
  -- the service nor the store, on any route.
  pub serve_unread :
      (options : Options) (clock : Clock) (header : String) (r : Route F) (v v' : Service F)
      (s s' : S) (out : Response F)
      → serve repo json canonical options clock header r v s ≡ some ((v', s'), out)
      → is_unread out.status ≡ true
      → (v' ≡ v) × (s' ≡ s)
  serve_unread options clock header r v v' s s' out h u =
      decided (subst (SparesIf v s) h (serve-SparesIf options clock header r v s))
    where
      both : false ≢ true
      both h = cc

      decided : Spares v s ((v', s'), out) → (v' ≡ v) × (s' ≡ s)
      decided (inl e) = e
      decided (inr n) = elim (both (sym n ∙ u)) [ ]
