-- ===== src/Store/Memory/Outbox/Cursors.antt =====
-- The cursors of internal/store/memory.go: each operation keeps them consecutive.
use alerts.Common.{
  ℕ, ◌+◌, ◌≡◌, refl, inl, inr, String, ◌<>◌, Bool, true, false, Option, none, some, List, [], ◌∷◌,
  ◌++◌, length, any, arith, ◌==◌, nat_eq, string_eq, if◌then◌else◌, or_zero, ◌>>=◌, Bool-cases,
  Result, ok, err,
}
use mathlib.Core.Path.{subst}
use alerts.Common.{Option-cases}
use alerts.Store.Apply.{Applied, apply}
use alerts.Common.Dict.{values}
use alerts.Model.{series_key, empty_evaluation_state}
use mathlib.Core.Option.{some-injective}
use alerts.Common.Dict.{lookup, insert}
use alerts.Model.{Float64, Platform, Time, Observation, AlertDefinition, Alert}
use alerts.Store.{StoreError, not_found}
use alerts.Store.Memory.{
  is_archived, known_definition, Memory, create_definition, set_enabled, archive_definition,
}
use alerts.Store.Memory.Observe.{is_eligible, store_applied, apply_all, received, apply_observation}
use alerts.Store.Memory.Leases.{is_contested, acquire_partitions}
use alerts.Store.Memory.Outbox.{has_id, add_alerts, publish_first}

module _ {F : Type 0} where
  -- The cursors are n + 1, n + 2 and so on.
  abbrev pub IsNumbered : ℕ → List (Alert F) → Type 0
  IsNumbered n [] = Unit
  IsNumbered n (a ∷ others) = (a.cursor ≡ n + 1) × IsNumbered (n + 1) others

  pub IsNumbered-append :
      (n : ℕ) (xs : List (Alert F)) (b : Alert F)
      → IsNumbered n xs
      → b.cursor ≡ n + length xs + 1
      → IsNumbered n (xs ++ b ∷ [])
  IsNumbered-append n [] b h e = (omega (arith, e), tt)
  IsNumbered-append n (x ∷ xs) b (k, h) e = (k, IsNumbered-append (n + 1) xs b h (omega (arith, e)))

  pub add_alerts-IsNumbered :
      (xs stored created : List (Alert F))
      → IsNumbered 0 stored
      → IsNumbered 0 (add_alerts xs stored created).0
  unfolding add_alerts
  add_alerts-IsNumbered [] stored created h = h
  add_alerts-IsNumbered (a ∷ others) stored created h = elim (Bool-cases (has_id a.id stored)) [
    | inl k ↦ rw k (add_alerts-IsNumbered others stored created h)
    | inr k ↦ rw k (
        add_alerts-IsNumbered others _ _
          (IsNumbered-append 0 stored (record a { cursor = length stored + 1 }) h (omega arith)))
  ]

  pub publish_first-IsNumbered :
      (id : String) (n : ℕ) (xs : List (Alert F))
      → IsNumbered n xs
      → IsNumbered n (publish_first id xs)
  unfolding publish_first
  publish_first-IsNumbered id n [] h = tt
  publish_first-IsNumbered id n (a ∷ others) (k, h) = elim (Bool-cases (a.id == id)) [
    | inl e ↦ rw e (k, h)
    | inr e ↦ rw e (k, publish_first-IsNumbered id (n + 1) others h)
  ]

  pub create_definition_alerts :
      (d : AlertDefinition F) (m : Memory F) → (create_definition d m).0.alerts ≡ m.alerts
  unfolding create_definition known_definition
  create_definition_alerts d m = found (lookup d.definition_hash m.by_hash)
    where
      found :
          (h : Option String)
          → (let r : Memory F × Option (AlertDefinition F) × Bool = elim h [
            | some id ↦
                let (t, stored) = known_definition d id (lookup id m.definitions) m in
                (t, stored, false)
            | none ↦ (
              record m {
                definitions = insert d.id d m.definitions;
                by_hash = insert d.definition_hash d.id m.by_hash;
              },
              some d,
              true,
            )
          ] in
              r).0.alerts
            ≡ m.alerts
      found none = refl
      found (some id) = elim (Bool-cases (is_archived id m)) [ inl h ↦ rw h | inr h ↦ rw h ]

  pub set_enabled_alerts :
      (id : String) (b : Bool) (t u : Time) (m : Memory F)
      → (set_enabled id b t u m).0.alerts ≡ m.alerts
  unfolding set_enabled
  set_enabled_alerts id b t u m = found (lookup id m.definitions)
    where
      found :
          (h : Option (AlertDefinition F))
          → (let r : Memory F × Result StoreError (AlertDefinition F) = elim h [
            | none ↦ (m, err not_found)
            | some d ↦
                if is_archived id m
                then (m, err not_found)
                else (let v = record d { enabled = b; updated_at = u; effective_at = t } in
                    (record m { definitions = insert id v m.definitions }, ok v))
          ] in
              r).0.alerts
            ≡ m.alerts
      found none = refl
      found (some d) = elim (Bool-cases (is_archived id m)) [ inl h ↦ rw h | inr h ↦ rw h ]

  pub archive_definition_alerts :
      (id : String) (t : Time) (m : Memory F) → (archive_definition id t m).0.alerts ≡ m.alerts
  unfolding archive_definition
  archive_definition_alerts id t m = elim (Option-cases (lookup id m.definitions)) [
    | inl h ↦ rw (h, archive_definition)
    | inr (d, h) ↦ rw (h, archive_definition)
  ]

  pub acquire_partitions_alerts :
      (owner : String) (ps : List ℕ) (m : Memory F)
      → (acquire_partitions owner ps m).0.alerts ≡ m.alerts
  unfolding acquire_partitions
  acquire_partitions_alerts owner ps m = elim (Bool-cases (is_contested owner ps m.leases)) [
    | inl h ↦ rw h
    | inr h ↦ rw h
  ]

  module _ ⦃fl : Float64 F⦄ ⦃pl : Platform F⦄ where
    store_applied-IsNumbered :
        (payload key : String) (r : Applied F) (m : Memory F) (created : List (Alert F))
        → IsNumbered 0 m.alerts
        → IsNumbered 0 (store_applied payload key r m created).0.alerts
    unfolding store_applied
    store_applied-IsNumbered payload key (s, alert, false) m created h = h
    store_applied-IsNumbered payload key (s, none, true) m created h = h
    store_applied-IsNumbered payload key (s, some a, true) m created h =
        IsNumbered-append 0 m.alerts
          (record a { observation = payload; cursor = length m.alerts + 1 }) h (omega arith)

    apply_all-IsNumbered :
        (now : Time) (o : Observation F) (payload : String) (ds : List (AlertDefinition F))
        (m : Memory F) (created : List (Alert F)) {out : Memory F × List (Alert F)}
        → IsNumbered 0 m.alerts
        → apply_all now o payload ds m created ≡ some out
        → IsNumbered 0 out.0.alerts
    unfolding apply_all
    apply_all-IsNumbered now o payload [] m created h e =
        subst (λ t. IsNumbered 0 t.0.alerts) (some-injective _ _ e) h
    apply_all-IsNumbered now o payload (d ∷ ds) m created {out = out} h e =
        elim (Bool-cases (is_eligible o d)) [
          | inr k ↦ apply_all-IsNumbered now o payload ds m created h (rw k at e)
          | inl k ↦
              applied
                (apply now d o (
                  or_zero empty_evaluation_state
                    (lookup (d.id <> "|" <> series_key o.series) m.states)))
                (λ x.
                  apply_all-IsNumbered now o payload ds
                    (store_applied payload (d.id <> "|" <> series_key o.series) x m created).0
                    (store_applied payload (d.id <> "|" <> series_key o.series) x m created).1
                    {out = out}
                    (store_applied-IsNumbered payload (d.id <> "|" <> series_key o.series) x m
                      created h))
                (rw k at e)
        ]
      where
        applied :
            (r : Option (Applied F))
            → ((x : Applied F)
                → (let t = store_applied payload (d.id <> "|" <> series_key o.series) x m created in
                    apply_all now o payload ds t.0 t.1)
                  ≡ some out
                → IsNumbered 0 out.0.alerts)
            → (r >>= λ x.
                let t = store_applied payload (d.id <> "|" <> series_key o.series) x m created in
                apply_all now o payload ds t.0 t.1)
              ≡ some out
            → IsNumbered 0 out.0.alerts
        applied none step k = cc
        applied (some x) step k = step x k

    received-IsNumbered :
        (now : Time) (o : Observation F) (payload : Option String) (m : Memory F)
        {out : Memory F × Result StoreError (List (Alert F))}
        → IsNumbered 0 m.alerts
        → received now o payload m ≡ some out
        → IsNumbered 0 out.0.alerts
    unfolding received
    received-IsNumbered now o none m h e =
        subst (λ t. IsNumbered 0 t.0.alerts) (some-injective _ _ e) h
    received-IsNumbered now o (some payload) m h e =
        returned (apply_all now o payload (values m.definitions) m []) refl e
      where
        returned :
            (r : Option (Memory F × List (Alert F)))
            {out : Memory F × Result StoreError (List (Alert F))}
            → apply_all now o payload (values m.definitions) m [] ≡ r
            → (r >>= λ (t, created). some (t, ok created)) ≡ some out
            → IsNumbered 0 out.0.alerts
        returned none q k = cc
        returned (some x) q k =
            subst (λ t. IsNumbered 0 t.0.alerts) (some-injective _ _ k)
              (apply_all-IsNumbered now o payload (values m.definitions) m [] h q)

    pub apply_observation-IsNumbered :
        (now : Time) (o : Observation F) (m : Memory F)
        {out : Memory F × Result StoreError (List (Alert F))}
        → IsNumbered 0 m.alerts
        → apply_observation now o m ≡ some out
        → IsNumbered 0 out.0.alerts
    unfolding apply_observation
    apply_observation-IsNumbered now o m {out = out} h e =
        elim (Bool-cases (any (λ x. x == o.source_event_id) m.inbox)) [
          | inl k ↦ subst (λ t. IsNumbered 0 t.0.alerts) (some-injective _ _ (rw k at e)) h
          | inr k ↦
              received-IsNumbered now o (pl.marshal o)
                (record m { inbox = o.source_event_id ∷ m.inbox }) {out = out} h (rw k at e)
        ]
