-- ===== src/Store/Memory/Outbox/Pages.antt =====
-- What a client that reads the alerts of internal/store/memory.go page after page gets.
use alerts.Common.{
  ℕ, suc, ◌+◌, ◌-◌, ◌<◌, ◌≡◌, sym, ap, ◌∙◌, inl, inr, String, Bool, some, List, [], ◌∷◌, ◌++◌,
  append-nil, append_assoc, length, length-append, keep, take, drop, arith, ltb, ◌==◌, nat_eq,
  string_eq, Bool-cases, Result,
}
use native.Mathlib.Decide.{dec_lt}
use alerts.Common.{take_nil, drop_nil, keep_yes, keep_no}
use alerts.Model.{Float64, Platform, Time, Observation, AlertDefinition, Alert}
use alerts.Store.{RuntimeBatch, StoreError}
use alerts.Store.Memory.{Memory, new_memory, create_definition, set_enabled, archive_definition}
use alerts.Store.Memory.Observe.{apply_observation}
use alerts.Store.Memory.Leases.{acquire_partitions, release_partitions}
use alerts.Store.Memory.Outbox.{has_id, commit_runtime_batch, collect, list_alerts, mark_published}
use alerts.Store.Memory.Outbox.Cursors.{
  IsNumbered, add_alerts-IsNumbered, publish_first-IsNumbered, apply_observation-IsNumbered,
  create_definition_alerts, set_enabled_alerts, archive_definition_alerts,
  acquire_partitions_alerts,
}

module _ {F : Type 0} where
  keep_after :
      (after n : ℕ) (xs : List (Alert F))
      → IsNumbered n xs
      → keep (λ a. ltb after a.cursor) xs ≡ drop (after - n) xs
  unfolding keep drop
  keep_after after n [] h = sym (drop_nil (after - n))
  keep_after after n (x ∷ xs) (k, h) = elim (dec_lt n after) [
    | no new ↦
        let now : after - n ≡ 0 = omega arith in
        let then_on : after - (n + 1) ≡ 0 = omega arith in
        keep_yes (λ a. ltb after a.cursor) x xs (ground arith)
        ∙ ap (λ t. x ∷ t) (keep_after after (n + 1) xs h ∙ ap (λ t. drop t xs) then_on)
        ∙ ap (λ t. drop t (x ∷ xs)) (sym now)
    | yes seen ↦
        let one_more : after - n ≡ suc (after - (n + 1)) = omega arith in
        keep_no (λ a. ltb after a.cursor) x xs (ground arith)
        ∙ keep_after after (n + 1) xs h
        ∙ ap (λ t. drop t (x ∷ xs)) (sym one_more)
  ]

  pub collect_lem :
      (p : Alert F → Bool) (limit : ℕ) (xs out : List (Alert F))
      → length out < limit
      → collect p limit xs out ≡ out ++ take (limit - length out) (keep p xs)
  unfolding collect keep take
  collect_lem p limit [] out h =
      rw (take_nil {A = Alert F} (limit - length out)) (sym (append-nil out))
  collect_lem p limit (x ∷ xs) out h = elim (Bool-cases (p x)) [
    | inr fails ↦ rw fails (
        collect_lem p limit xs out h
        ∙ ap (λ t. out ++ take (limit - length out) t) (sym (keep_no p x xs fails)))
    | inl passes ↦ elim (Bool-cases (length out + 1 == limit)) [
      | inl full ↦
          let last : limit - length out ≡ 1 = ground arith in
          rw (passes, full)
            (ap (λ t. out ++ take 1 t) (sym (keep_yes p x xs passes))
              ∙ ap (λ n. out ++ take n (keep p (x ∷ xs))) (sym last))
      | inr room ↦
          let long : length (out ++ x ∷ []) ≡ length out + 1 = length-append out (x ∷ []) in
          let fits : length (out ++ x ∷ []) < limit = ground (arith, long) in
          let left : limit - length out ≡ suc (limit - length (out ++ x ∷ [])) =
            ground (arith, long) in
          rw (passes, room)
            (collect_lem p limit xs (out ++ x ∷ []) fits
              ∙ append_assoc out (x ∷ []) (take (limit - length (out ++ x ∷ [])) (keep p xs))
              ∙ ap (λ t. out ++ take (suc (limit - length (out ++ x ∷ []))) t)
                  (sym (keep_yes p x xs passes))
              ∙ ap (λ n. out ++ take n (keep p (x ∷ xs))) (sym left))
    ]
  ]

  -- ListAlerts over numbered alerts: the page after a cursor.
  list_alerts-IsNumbered :
      (after limit : ℕ) (m : Memory F)
      → 0 < limit
      → IsNumbered 0 m.alerts
      → list_alerts after limit m ≡ take limit (drop after m.alerts)
  unfolding list_alerts
  list_alerts-IsNumbered after limit m h k =
      let whole_limit : limit - 0 ≡ limit = omega arith in
      let whole_cursor : after - 0 ≡ after = omega arith in
      collect_lem (λ a. ltb after a.cursor) limit m.alerts [] h
      ∙ ap (λ n. take n (keep (λ a. ltb after a.cursor) m.alerts)) whole_limit
      ∙ ap (take limit) (keep_after after 0 m.alerts k ∙ ap (λ n. drop n m.alerts) whole_cursor)

  module _ ⦃fl : Float64 F⦄ ⦃pl : Platform F⦄ where
    -- The memories that the operations make, in any order.
    pub data Reachable : Memory F → Type 0 where
      start : Reachable new_memory
      defined :
          {m : Memory F}
          → Reachable m
          → (d : AlertDefinition F) → Reachable (create_definition d m).0
      switched :
          {m : Memory F}
          → Reachable m
          → (id : String) (enabled : Bool) (effective now : Time)
          → Reachable (set_enabled id enabled effective now m).0
      dropped :
          {m : Memory F}
          → Reachable m
          → (id : String) (effective : Time) → Reachable (archive_definition id effective m).0
      observed :
          {m : Memory F}
          → Reachable m
          → (now : Time) (o : Observation F) (out : Memory F × Result StoreError (List (Alert F)))
          → apply_observation now o m ≡ some out
          → Reachable out.0
      committed :
          {m : Memory F}
          → Reachable m
          → (b : RuntimeBatch F) → Reachable (commit_runtime_batch b m).0
      published : {m : Memory F} → Reachable m → (id : String) → Reachable (mark_published id m).0
      acquired :
          {m : Memory F}
          → Reachable m
          → (owner : String) (ps : List ℕ) → Reachable (acquire_partitions owner ps m).0
      released :
          {m : Memory F} → Reachable m → (owner : String) → Reachable (release_partitions owner m)

    Reachable-IsNumbered : {m : Memory F} → Reachable m → IsNumbered 0 m.alerts
    unfolding commit_runtime_batch mark_published release_partitions
    Reachable-IsNumbered start = tt
    Reachable-IsNumbered (defined {m = m} r d) =
        rw (create_definition_alerts d m) (Reachable-IsNumbered r)
    Reachable-IsNumbered (switched {m = m} r id b t u) =
        rw (set_enabled_alerts id b t u m) (Reachable-IsNumbered r)
    Reachable-IsNumbered (dropped {m = m} r id t) =
        rw (archive_definition_alerts id t m) (Reachable-IsNumbered r)
    Reachable-IsNumbered (observed {m = m} r now o out e) =
        apply_observation-IsNumbered now o m (Reachable-IsNumbered r) e
    Reachable-IsNumbered (committed {m = m} r b) =
        add_alerts-IsNumbered b.alerts m.alerts [] (Reachable-IsNumbered r)
    Reachable-IsNumbered (published {m = m} r id) = elim (Bool-cases (has_id id m.alerts)) [
      | inl h ↦ rw h (publish_first-IsNumbered id 0 m.alerts (Reachable-IsNumbered r))
      | inr h ↦ rw h (Reachable-IsNumbered r)
    ]
    Reachable-IsNumbered (acquired {m = m} r owner ps) =
        rw (acquire_partitions_alerts owner ps m) (Reachable-IsNumbered r)
    Reachable-IsNumbered (released {m = m} r owner) = Reachable-IsNumbered r

    -- In a memory that its operations made, ListAlerts after a cursor returns the alerts that follow the
    -- first `after` ones, up to a limit that is not 0: cursors are positions, so pages skip and repeat nothing.
    pub list_alerts_page :
        {m : Memory F}
        → Reachable m
        → (after limit : ℕ) → 0 < limit
        → list_alerts after limit m ≡ take limit (drop after m.alerts)
    list_alerts_page {m} r after limit h =
        list_alerts-IsNumbered after limit m h (Reachable-IsNumbered r)
