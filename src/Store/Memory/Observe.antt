-- ===== src/Store/Memory/Observe.antt =====
-- ApplyObservation of internal/store/memory.go.
use alerts.Common.{
  ◌+◌, String, ◌<>◌, Bool, true, false, not, ◌&&◌, ◌||◌, Option, none, some, List, [], ◌∷◌, ◌++◌,
  length, any, ltb, ◌==◌, nat_eq, string_eq, if◌then◌else◌, or_zero, ◌>>=◌, Result, ok, err,
}
use alerts.Common.Dict.{lookup, insert, values}
use alerts.Model.{
  Float64, Platform, Time, Series, series_key, Observation, AlertDefinition, Alert, EvaluationState,
  empty_evaluation_state,
}
use alerts.Engine.Policy.{accepts_mode}
use alerts.Store.{StoreError, failure}
use alerts.Store.Apply.{Applied, apply}
use alerts.Store.Memory.{Memory, receive}

unfoldable pub match_series : Series → Series → Bool
match_series selector actual =
    selector.symbol == actual.symbol
    && selector.timeframe == actual.timeframe
    && (selector.dataset == "" || selector.dataset == actual.dataset)

module _ {F : Type 0} where
  -- Whether ApplyObservation looks at a definition.
  unfoldable pub is_eligible : Observation F → AlertDefinition F → Bool
  unfolding match_series accepts_mode
  is_eligible o d = not (
      not d.enabled
      || ltb o.occurred_at d.created_at
      || not (match_series d.series o.series)
      || not (accepts_mode d.evaluation_mode o.status))

  abbrev pub put_state : String → EvaluationState F → Memory F → Memory F
  put_state key s m = record m { states = insert key s m.states }

  -- What an accepted application leaves, with the alerts of this call.
  unfoldable pub store_applied :
      String → String → Applied F → Memory F → List (Alert F) → Memory F × List (Alert F)
  store_applied payload key (s, alert, false) m created = (m, created)
  store_applied payload key (s, none, true) m created = (put_state key s m, created)
  store_applied payload key (s, some a, true) m created =
      let b = record a { observation = payload; cursor = length m.alerts + 1 } in
      (record (put_state key s m) { alerts = m.alerts ++ b ∷ [] }, created ++ b ∷ [])

  module _ ⦃fl : Float64 F⦄ ⦃pl : Platform F⦄ where
    unfoldable pub apply_all :
        Time
        → Observation F
        → String
        → List (AlertDefinition F)
        → Memory F
        → List (Alert F)
        → Option (Memory F × List (Alert F))
    unfolding is_eligible apply store_applied
    apply_all now o payload [] m created = some (m, created)
    apply_all now o payload (d ∷ ds) m created =
        let skipped = apply_all now o payload ds m created in
        let key = d.id <> "|" <> series_key o.series in
        if is_eligible o d
        then (apply now d o (or_zero empty_evaluation_state (lookup key m.states)) >>= λ r.
            let t = store_applied payload key r m created in apply_all now o payload ds t.0 t.1)
        else skipped

    unfoldable pub received :
        Time
        → Observation F
        → Option String
        → Memory F
        → Option (Memory F × Result StoreError (List (Alert F)))
    unfolding apply_all values
    received now o none m = some (m, err (failure "json"))
    received now o (some payload) m =
        apply_all now o payload (values m.definitions) m [] >>= λ (t, created). some (t, ok created)

    -- ApplyObservation: the inbox remembers the event whatever follows. none is a panic.
    unfoldable pub apply_observation :
        Time → Observation F → Memory F → Option (Memory F × Result StoreError (List (Alert F)))
    unfolding received
    apply_observation now o m =
        if any (λ x. x == o.source_event_id) m.inbox
        then some (m, ok [])
        else received now o (pl.marshal o) (record m { inbox = receive o.source_event_id m.inbox })
