-- ===== src/Store/Memory/Leases/Exclusion.antt =====
-- Mutual exclusion of the partition leases of internal/store/memory.go.
use alerts.Common.{
  ℕ, ◌≡◌, refl, sym, ap, ◌∙◌, ◌≢◌, inl, inr, String, Bool, true, false, List, [], ◌∷◌, any, arith,
  ◌==◌, nat_eq, string_eq, if◌then◌else◌, Bool-cases,
}
use mathlib.Core.Path.{subst}
use alerts.Common.Dict.{Dict, insert, lookup-insert}
use alerts.Store.Memory.{Memory}
use alerts.Store.Memory.Leases.{holder, lease_all, is_contested, acquire_partitions}

-- The holder of a partition after a grant: the owner of the grant, or the one before.
holder-lease_all :
    (owner : String) (ps : List ℕ) (d : Dict ℕ String) (p : ℕ)
    → holder p (lease_all owner ps d) ≡ (if any (λ q. q == p) ps then owner else holder p d)
unfolding lease_all
holder-lease_all owner [] d p = refl
holder-lease_all owner (q ∷ ps) d p =
    holder-lease_all owner ps (insert q owner d) p ∙ ground (arith, lookup-insert q p owner d)

contested_by_holder :
    (owner : String) (ps : List ℕ) (d : Dict ℕ String) (p : ℕ)
    → any (λ q. q == p) ps ≡ true
    → (holder p d == "") ≡ false
    → (holder p d == owner) ≡ false
    → is_contested owner ps d ≡ true
unfolding is_contested
contested_by_holder owner [] d p h a b = cc
contested_by_holder owner (q ∷ ps) d p h a b = elim (Bool-cases (q == p)) [
  | inl e ↦ let same : q ≡ p = (nat_eq.same_iff q p).0 e in rw same (rw (a, b))
  | inr n ↦ ground (arith, contested_by_holder owner ps d p (rw n at h) a b)
]

module _ {F : Type 0} where
  -- After a grant of the partitions ps to an owner whose name is not empty, a request of an owner of another name
  -- for partitions of which one is in ps is refused and changes nothing.
  pub acquire_partitions_exclusive :
      (m m' : Memory F) (owner other : String) (ps qs : List ℕ) (p : ℕ)
      → acquire_partitions owner ps m ≡ (m', true)
      → owner ≢ ""
      → owner ≢ other
      → any (λ q. q == p) ps ≡ true
      → any (λ q. q == p) qs ≡ true
      → acquire_partitions other qs m' ≡ (m', false)
  unfolding acquire_partitions
  acquire_partitions_exclusive m m' owner other ps qs p h some_owner others a b =
      elim (Bool-cases (is_contested owner ps m.leases)) [
        | inl k ↦ absurd (clash (rw k at h) refl refl)
        | inr k ↦ rw (
            contested_by_holder other qs m'.leases p b
              (unequal (subst (λ t. t ≢ "") (sym (held k)) some_owner))
              (unequal (subst (λ t. t ≢ other) (sym (held k)) others)))
      ]
    where
      clash : {x y : Memory F × Bool} → x ≡ y → x.1 ≡ false → y.1 ≡ true → ⊥
      clash e a b = cc

      unequal : {x y : String} → x ≢ y → (x == y) ≡ false
      unequal {x} {y} n = ground (arith, string_eq.same_iff x y)

      held : is_contested owner ps m.leases ≡ false → holder p m'.leases ≡ owner
      held k =
          ap (λ t. holder p t.0.leases) (sym (rw k at h))
          ∙ holder-lease_all owner ps m.leases p
          ∙ rw a
