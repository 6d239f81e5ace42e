-- ===== src/Store/Memory/Outbox/Commit.antt =====
-- What CommitRuntimeBatch of internal/store/memory.go promises of the alerts of a batch.
use alerts.Common.{
  ◌+◌, ◌≡◌, refl, ap, ◌∙◌, inl, inr, String, true, false, ◌||◌, List, [], ◌∷◌, ◌++◌, length, All,
  arith, nat_eq, string_eq, Bool-cases,
}
use mathlib.Core.Path.{subst}
use alerts.Model.{Alert}
use alerts.Store.{RuntimeBatch}
use alerts.Store.Memory.{Memory}
use alerts.Store.Memory.Outbox.{has_id, add_alerts, commit_runtime_batch}

module _ {F : Type 0} where
  has_id-append :
      (id : String) (xs ys : List (Alert F)) → has_id id (xs ++ ys) ≡ (has_id id xs || has_id id ys)
  has_id-append id [] ys = refl
  has_id-append id (x ∷ xs) ys = ground (arith, has_id-append id xs ys)

  -- An alert that is stored stays stored.
  add_alerts_keeps :
      (id : String) (xs stored created : List (Alert F))
      → has_id id stored ≡ true
      → has_id id (add_alerts xs stored created).0 ≡ true
  unfolding add_alerts
  add_alerts_keeps id [] stored created h = h
  add_alerts_keeps id (a ∷ others) stored created h = elim (Bool-cases (has_id a.id stored)) [
    | inl k ↦ rw k (add_alerts_keeps id others stored created h)
    | inr k ↦ rw k (
        add_alerts_keeps id others _ _
          (has_id-append id stored (record a { cursor = length stored + 1 } ∷ []) ∙ rw h))
  ]

  abbrev AllStored : List (Alert F) → List (Alert F) → Type 0
  AllStored xs stored = All (λ a. has_id a.id stored ≡ true) xs

  add_alerts-AllStored :
      (xs stored created : List (Alert F)) → AllStored xs (add_alerts xs stored created).0
  unfolding add_alerts
  add_alerts-AllStored [] stored created = tt
  add_alerts-AllStored (a ∷ others) stored created = elim (Bool-cases (has_id a.id stored)) [
    | inl k ↦
        subst (λ t. AllStored (a ∷ others) t.0) (skips k)
          (
            add_alerts_keeps a.id others stored created k,
            add_alerts-AllStored others stored created,
          )
    | inr k ↦
        subst (λ t. AllStored (a ∷ others) t.0) (adds k)
          (
            add_alerts_keeps a.id others (stored ++ b ∷ []) (created ++ b ∷ []) last_stored,
            add_alerts-AllStored others (stored ++ b ∷ []) (created ++ b ∷ []),
          )
  ]
    where
      b : Alert F
      b = record a { cursor = length stored + 1 }

      skips :
          has_id a.id stored ≡ true
          → add_alerts others stored created ≡ add_alerts (a ∷ others) stored created
      skips k = rw k

      adds :
          has_id a.id stored ≡ false
          → add_alerts others (stored ++ b ∷ []) (created ++ b ∷ [])
            ≡ add_alerts (a ∷ others) stored created
      adds k = rw k

      last_stored : has_id a.id (stored ++ b ∷ []) ≡ true
      last_stored =
          has_id-append a.id stored (b ∷ []) ∙ ground (arith, string_eq.same_iff a.id a.id)

  AllStored-add_alerts :
      (ys xs stored created : List (Alert F))
      → AllStored ys stored
      → AllStored ys (add_alerts xs stored created).0
  AllStored-add_alerts [] xs stored created h = tt
  AllStored-add_alerts (y ∷ ys) xs stored created (k, h) =
      (add_alerts_keeps y.id xs stored created k, AllStored-add_alerts ys xs stored created h)

  add_alerts_stored :
      (xs stored created : List (Alert F))
      → AllStored xs stored
      → add_alerts xs stored created ≡ (stored, created)
  unfolding add_alerts
  add_alerts_stored [] stored created h = refl
  add_alerts_stored (a ∷ others) stored created (k, h) =
      rw k (add_alerts_stored others stored created h)

  -- Commits one after another.
  abbrev pub commit_all : List (RuntimeBatch F) → Memory F → Memory F
  commit_all [] m = m
  commit_all (b ∷ bs) m = commit_all bs (commit_runtime_batch b m).0

  commit_all-AllStored :
      (bs : List (RuntimeBatch F)) (xs : List (Alert F)) (m : Memory F)
      → AllStored xs m.alerts
      → AllStored xs (commit_all bs m).alerts
  unfolding commit_runtime_batch
  commit_all-AllStored [] xs m h = h
  commit_all-AllStored (b ∷ bs) xs m h =
      commit_all-AllStored bs xs (commit_runtime_batch b m).0
        (AllStored-add_alerts xs b.alerts m.alerts [] h)

  -- A batch that is committed again, whatever was committed in between, creates no alert and leaves the
  -- stored alerts as they are.
  pub commit_again :
      (b : RuntimeBatch F) (bs : List (RuntimeBatch F)) (m : Memory F)
      → ((commit_runtime_batch b (commit_all bs (commit_runtime_batch b m).0)).1 ≡ [])
        × ((commit_runtime_batch b (commit_all bs (commit_runtime_batch b m).0)).0.alerts
            ≡ (commit_all bs (commit_runtime_batch b m).0).alerts)
  unfolding commit_runtime_batch
  commit_again b bs m =
      let after = commit_all bs (commit_runtime_batch b m).0 in
      let e = add_alerts_stored b.alerts after.alerts [] (
        commit_all-AllStored bs b.alerts (commit_runtime_batch b m).0
          (add_alerts-AllStored b.alerts m.alerts [])) in
      (ap (λ t. t.1) e, ap (λ t. t.0) e)
