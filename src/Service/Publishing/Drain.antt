-- ===== src/Service/Publishing/Drain.antt =====
-- The publisher's loop over the repository in memory.
use mathlib.Core.Path.{subst}
use alerts.Common.{
  ℕ, zero, suc, ◌+◌, ◌*◌, ◌-◌, ◌%◌, ◌^◌, ◌<◌, String, true, false, not, Option, none, some, List,
  [], ◌∷◌, length, length-drop, take, drop, ltb, ok, err, ◌≡◌, refl, sym, ap, ◌∙◌, Bool-cases, inl,
  inr, arith, if◌then◌else◌,
}
use alerts.Model.{Alert}
use alerts.Store.{Repository}
use alerts.Store.Memory.{Memory}
use alerts.Store.Memory.Outbox.{has_id, claim_pending, publish_first, mark_published}
use alerts.Store.Memory.Outbox.Pending.{
  pending, IsDistinct, claim_pending_lem, publish_first-Taken, drop-short, take-full,
}
use alerts.Service.Publishing.{
  Publisher, Counts, marked, publish_event, publish_events, publish_pass, publish_passes,
}

-- What is said of a loop that ended: no alert is pending.
abbrev pub Drained : {F P : Type 0} → Option (Counts × Memory F × P) → Type 0
Drained none = ⊥
Drained (some (c, m, q)) = pending m.alerts ≡ []

module _ {F P : Type 0} (repo : Repository F (Memory F)) (publish : Publisher F P)
    (claims : (m : Memory F) → repo.claim_pending m 100 ≡ (m, ok (claim_pending 100 m)))
    (marks : (m : Memory F) (id : String) → repo.mark_published m id ≡ mark_published id m)
    (publishes : (q : P) (a : Alert F) → (publish q a).1 ≡ none) where
  publish_event_alerts :
      (a : Alert F) (c : Counts) (m : Memory F) (q : P)
      → has_id a.id m.alerts ≡ true
      → (publish_event repo publish a c m q).1.alerts ≡ publish_first a.id m.alerts
  unfolding publish_event marked mark_published publish_first
  publish_event_alerts a c m q h = went (publish q a) (publishes q a)
    where
      stored :
          repo.mark_published m a.id ≡ (record m { alerts = publish_first a.id m.alerts }, ok tt)
      stored = marks m a.id ∙ rw (h, mark_published) refl

      went :
          (r : P × Option String)
          → r.1 ≡ none
          → (let (q', outcome) = r in
              let e : Counts × Memory F × P = elim outcome [
                | some x ↦ (
                  record c { publish_fails = (c.publish_fails + 1) % 2 ^ 64 },
                  (repo.mark_publish_failed m a.id x).0,
                  q',
                )
                | none ↦
                    let (d, t) = marked repo publish c (repo.mark_published m a.id) in (d, t, q')
              ] in
              e.1.alerts)
            ≡ publish_first a.id m.alerts
      went (q', some x) k = cc
      went (q', none) k = ap (λ r. (marked repo publish c r).1.alerts) stored

  publish_events-pending :
      (n : ℕ) (found : List (Alert F)) (c : Counts) (m : Memory F) (q : P)
      → pending m.alerts ≡ found
      → IsDistinct m.alerts
      → (let out = publish_events repo publish (take n found) c m q in
          (pending out.1.alerts ≡ drop n found) × IsDistinct out.1.alerts)
  unfolding publish_events take drop
  publish_events-pending zero found c m q e d = (e, d)
  publish_events-pending (suc n) [] c m q e d = (e, d)
  publish_events-pending (suc n) (a ∷ found) c m q e d =
      let (h, f, g) = publish_first-Taken m.alerts a found d e in
      let k = publish_event_alerts a c m q h in
      let out = publish_event repo publish a c m q in
      publish_events-pending n found out.0 out.1 out.2 (ap pending k ∙ f)
        (subst IsDistinct (sym k) g)

  -- A pass publishes the first hundred of the pending alerts.
  publish_pass_lem :
      (c : Counts) (m : Memory F) (q : P)
      → publish_pass repo publish c m q ≡ (
        publish_events repo publish (take 100 (pending m.alerts)) c m q,
        not (ltb (length (take 100 (pending m.alerts))) 100),
      )
  unfolding publish_pass
  publish_pass_lem c m q =
      let found =
        claims m ∙ ap (λ events. (m, ok events)) (claim_pending_lem 100 m (ground arith)) in
      ap
        (λ r.
          let (t, claimed) = r in
          elim claimed [
            | err x ↦ ((c, t, q), false)
            | ok events ↦ (publish_events repo publish events c t q, not (ltb (length events) 100))
          ])
        found

  -- Over the repository in memory, with a publisher that never fails and alerts of different ids, the inner loop
  -- of RunPublisher ends by itself after at most as many passes as there are hundreds of pending alerts and one
  -- more, and no alert is pending then.
  pub publish_passes-pending :
      (n : ℕ) (c : Counts) (m : Memory F) (q : P)
      → IsDistinct m.alerts
      → length (pending m.alerts) < n * 100
      → Drained (publish_passes repo publish n c m q)
  unfolding publish_passes
  publish_passes-pending zero c m q d h = elim (none_left (length (pending m.alerts)) h) [ ]
    where
      none_left : (k : ℕ) → k < 0 * 100 → ⊥
      none_left k h = ground arith
  publish_passes-pending (suc n) c m q d h =
      let found = pending m.alerts in
      let out = publish_events repo publish (take 100 found) c m q in
      let (e, d') = publish_events-pending 100 found c m q refl d in
      subst
        (λ r. Drained (if r.1 then publish_passes repo publish n r.0.0 r.0.1 r.0.2 else some r.0))
        (sym (publish_pass_lem c m q))
        (elim (Bool-cases (ltb (length (take 100 found)) 100)) [
          | inl y ↦ rw y (e ∙ drop-short 100 found y)
          | inr z ↦
              let full = take-full 100 found z in
              let left : length (pending out.1.alerts) ≡ length found - 100 =
                ap length e ∙ length-drop 100 found in
              rw z (publish_passes-pending n out.0 out.1 out.2 d' (ground (arith, left, full)))
        ])
