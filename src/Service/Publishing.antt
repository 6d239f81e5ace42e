-- ===== src/Service/Publishing.antt =====
-- The inner loop of RunPublisher in internal/service/service.go: the outbox is drained to a publisher.
pub mod Drain
use alerts.Common.{
  ℕ, zero, suc, if◌then◌else◌, ◌+◌, ◌%◌, ◌^◌, not, ltb, length, String, Bool, false, Option, none,
  some, List, [], ◌∷◌, Result, ok, err,
}
use alerts.Model.{Alert}
use alerts.Store.{StoreError, Repository}

-- A publisher: the error of a failed publication, or none. P is its state.
abbrev pub Publisher : Type 0 → Type 0 → Type 0
Publisher F P = P → Alert F → P × Option String

-- MultiPublisher: each publisher in turn, until one fails.
unfoldable pub publish_to_all : {F P : Type 0} → List (Publisher F P) → Publisher F P
publish_to_all [] p a = (p, none)
publish_to_all (publish ∷ others) p a =
    let (q, outcome) = publish p a in
    let rest = publish_to_all others q a in elim outcome [ some x ↦ (q, some x) | none ↦ rest ]

-- The counters Published and PublishFails, uint64.
pub record Counts : Type 0 where
  pub published : ℕ
  pub publish_fails : ℕ

module _ {F S P : Type 0} (repo : Repository F S) (publish : Publisher F P) where
  -- An alert that has been published is marked; a mark that fails is logged only.
  marked : Counts → S × Result StoreError (Unit {0}) → Counts × S
  marked c (s, err x) = (c, s)
  marked c (s, ok u) = (record c { published = (c.published + 1) % 2 ^ 64 }, s)

  publish_event : Alert F → Counts → S → P → Counts × S × P
  unfolding marked
  publish_event a c s p =
      let (q, outcome) = publish p a in
      elim outcome [
        | some x ↦ (
          record c { publish_fails = (c.publish_fails + 1) % 2 ^ 64 },
          (repo.mark_publish_failed s a.id x).0,
          q,
        )
        | none ↦ let (d, t) = marked c (repo.mark_published s a.id) in (d, t, q)
      ]

  unfoldable pub publish_events : List (Alert F) → Counts → S → P → Counts × S × P
  unfolding publish_event
  publish_events [] c s p = (c, s, p)
  publish_events (a ∷ others) c s p =
      let (d, t, q) = publish_event a c s p in publish_events others d t q

  -- One pass: up to 100 pending alerts are claimed and published. The last part says whether another follows.
  unfoldable pub publish_pass : Counts → S → P → (Counts × S × P) × Bool
  unfolding publish_events
  publish_pass c s p =
      let (t, claimed) = repo.claim_pending s 100 in
      elim claimed [
        | err x ↦ ((c, t, p), false)
        | ok events ↦ (publish_events events c t p, not (ltb (length events) 100))
      ]

  -- The loop over the passes; the fuel bounds their number, and none is a loop that has not ended by then.
  unfoldable pub publish_passes : ℕ → Counts → S → P → Option (Counts × S × P)
  unfolding publish_pass
  publish_passes zero c s p = none
  publish_passes (suc n) c s p =
      let (out, more) = publish_pass c s p in
      let rest = publish_passes n out.0 out.1 out.2 in if more then rest else some out
