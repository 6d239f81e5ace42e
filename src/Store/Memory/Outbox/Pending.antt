-- ===== src/Store/Memory/Outbox/Pending.antt =====
-- The pending alerts of the repository in memory, and what marking one as published does to them.
use mathlib.Core.Path.{subst}
use alerts.Common.{
  ℕ, zero, suc, ◌-◌, ◌<◌, ◌≤◌, String, Bool, true, false, List, [], ◌∷◌, length, take, drop, keep,
  keep_yes, keep_no, ltb, ◌==◌, string_eq, ◌≡◌, ◌≢◌, refl, sym, ap, ◌∙◌, Bool-cases, inl, inr,
  arith, ◌||◌, str_beq,
}
use alerts.Model.{Alert}
use alerts.Store.Memory.{Memory}
use alerts.Store.Memory.Outbox.{has_id, claim_pending, publish_first}
use alerts.Store.Memory.Outbox.Pages.{collect_lem}

module _ {F : Type 0} where
  abbrev pub is_pending : Alert F → Bool
  is_pending a = a.publish_status == "pending"

  -- The pending alerts in the order of the outbox
  abbrev pub pending : List (Alert F) → List (Alert F)
  pending alerts = keep is_pending alerts

  -- No two alerts have the same id.
  abbrev pub IsDistinct : List (Alert F) → Type 0
  IsDistinct [] = Unit
  IsDistinct (a ∷ others) = (has_id a.id others ≡ false) × IsDistinct others

  pub claim_pending_lem :
      (limit : ℕ) (m : Memory F) → 0 < limit → claim_pending limit m ≡ take limit (pending m.alerts)
  unfolding claim_pending
  claim_pending_lem limit m h =
      let whole : limit - 0 ≡ limit = omega arith in
      collect_lem is_pending limit m.alerts [] h ∙ ap (λ n. take n (pending m.alerts)) whole

  publish_first-has_id :
      (id other : String) (alerts : List (Alert F))
      → has_id other (publish_first id alerts) ≡ has_id other alerts
  unfolding publish_first
  publish_first-has_id id other [] = refl
  publish_first-has_id id other (a ∷ others) = elim (Bool-cases (a.id == id)) [
    | inl y ↦ rw y refl
    | inr n ↦ rw n (ap (λ b. (a.id == other) || b) (publish_first-has_id id other others))
  ]

  -- Marking the first pending alert takes it off the pending ones and changes nothing else of them.
  abbrev Taken : List (Alert F) → List (Alert F) → Alert F → Type 0
  Taken alerts rest a =
      (has_id a.id alerts ≡ true)
      × (pending (publish_first a.id alerts) ≡ rest)
      × IsDistinct (publish_first a.id alerts)

  here :
      (a : Alert F) (others rest : List (Alert F))
      → has_id a.id others ≡ false
      → IsDistinct others
      → pending others ≡ rest
      → Taken (a ∷ others) rest a
  unfolding publish_first str_beq
  here a others rest n d e =
      let same = (string_eq.same_iff a.id a.id).1 refl in
      rw same (
        refl,
        keep_no is_pending (record a { publish_status = "published" }) others refl ∙ e,
        (n, d),
      )

  there :
      (x a : Alert F) (others rest : List (Alert F))
      → is_pending x ≡ false
      → has_id x.id others ≡ false
      → Taken others rest a
      → Taken (x ∷ others) rest a
  unfolding publish_first
  there x a others rest p n (h, e, d) = elim (Bool-cases (x.id == a.id)) [
    | inl y ↦
        elim (both
          (sym n ∙ ap (λ id. has_id id others) ((string_eq.same_iff x.id a.id).0 y) ∙ h)) [ ]
    | inr z ↦ rw z (
      h,
      keep_no is_pending x (publish_first a.id others) p ∙ e,
      (publish_first-has_id a.id x.id others ∙ n, d),
    )
  ]
    where
      both : false ≢ true
      both h = cc

  pub publish_first-Taken :
      (alerts : List (Alert F)) (a : Alert F) (rest : List (Alert F))
      → IsDistinct alerts
      → pending alerts ≡ a ∷ rest
      → Taken alerts rest a
  unfolding keep
  publish_first-Taken [] a rest d h = cc
  publish_first-Taken (x ∷ others) a rest (n, d) h = elim (Bool-cases (is_pending x)) [
    | inl y ↦
        let k = sym (keep_yes is_pending x others y) ∙ h in
        let (e, f) = cons-injective k in
        subst (Taken (x ∷ others) rest) e (here x others rest n d f)
    | inr z ↦
        there x a others rest z n
          (publish_first-Taken others a rest d (sym (keep_no is_pending x others z) ∙ h))
  ]
    where
      cons-injective :
          {x a : Alert F} {xs ys : List (Alert F)} → (x ∷ xs) ≡ (a ∷ ys) → (x ≡ a) × (xs ≡ ys)
      cons-injective h = (cc, cc)

  -- A page that is not full is the last one.
  pub drop-short :
      (n : ℕ) (xs : List (Alert F)) → ltb (length (take n xs)) n ≡ true → drop n xs ≡ []
  unfolding take drop
  drop-short zero xs h = elim (never (length (take 0 xs)) h) [ ]
    where
      never : (k : ℕ) → ltb k 0 ≡ true → ⊥
      never k h = ground arith
  drop-short (suc n) [] h = refl
  drop-short (suc n) (x ∷ xs) h = drop-short n xs (ground arith)

  -- A full page has as many as the limit.
  pub take-full : (n : ℕ) (xs : List (Alert F)) → ltb (length (take n xs)) n ≡ false → n ≤ length xs
  unfolding take
  take-full zero xs h = ground arith
  take-full (suc n) [] h = ground arith
  take-full (suc n) (x ∷ xs) h =
      let rest : ltb (length (take n xs)) n ≡ false = ground arith in
      ground (arith, take-full n xs rest)
