-- ===== src/Broker/Streams/Shards.antt =====
-- The shards of the workers.
use mathlib.Core.Path.{subst}
use alerts.Common.{
  ℕ, zero, suc, ◌+◌, ◌%◌, ◌<◌, ◌≤◌, ◌≡◌, ◌≢◌, ◌↔◌, refl, ap, sym, ◌∙◌, Bool, true, false, List, [],
  ◌∷◌, ◌==◌, nat_eq, if◌then◌else◌, Bool-cases, inl, inr, arith, ◌⊎◌,
}
use alerts.Engine.Partitions.{owns}
use alerts.Broker.{evaluation_partitions}
use alerts.Broker.Streams.{shards_from, consumed_shards}

abbrev pub Holds : List ℕ → ℕ → Type 0
Holds [] n = ⊥
Holds (m ∷ ms) n = (m ≡ n) ⊎ Holds ms n

module _ (index count : ℕ) where
  -- A worker's shards from a number on
  abbrev InReach : ℕ → ℕ → ℕ → Type 0
  InReach shard left n = (shard ≤ n) × (n < shard + left) × (owns index count n ≡ true)

  no_reach : (shard n : ℕ) → shard ≤ n → n < shard + 0 → ⊥
  no_reach shard n a b = ground arith

  step-InReach :
      (shard left n : ℕ) (b : Bool) (rest : List ℕ)
      → owns index count shard ≡ b
      → Holds rest n ↔ InReach (suc shard) left n
      → Holds (if b then shard ∷ rest else rest) n ↔ InReach shard (suc left) n
  step-InReach shard left n true rest o (f, g) = (from, into)
    where
      from : ((shard ≡ n) ⊎ Holds rest n) → InReach shard (suc left) n
      from (inl e) = (ground arith, ground arith, subst (λ k. owns index count k ≡ true) e o)
      from (inr h) = let (a, b, c) = f h in (ground arith, ground arith, c)

      into : InReach shard (suc left) n → (shard ≡ n) ⊎ Holds rest n
      into (a, b, c) = elim (Bool-cases (shard == n)) [
        | inl y ↦ inl ((nat_eq.same_iff shard n).0 y)
        | inr z ↦ inr (g (ground (arith, nat_eq.same_iff shard n), ground arith, c))
      ]
  step-InReach shard left n false rest o (f, g) = (from, into)
    where
      from : Holds rest n → InReach shard (suc left) n
      from h = let (a, b, c) = f h in (ground arith, ground arith, c)

      into : InReach shard (suc left) n → Holds rest n
      into (a, b, c) = elim (Bool-cases (shard == n)) [
        | inl y ↦
            elim (differs (sym o ∙ ap (owns index count) ((nat_eq.same_iff shard n).0 y) ∙ c)) [ ]
        | inr z ↦ g (ground (arith, nat_eq.same_iff shard n), ground arith, c)
      ]
        where
          differs : false ≢ true
          differs h = cc

  shards_from-Holds :
      (shard left n : ℕ) → Holds (shards_from index count shard left) n ↔ InReach shard left n
  unfolding shards_from owns
  shards_from-Holds shard zero n = ((λ h. elim h [ ]), λ (a, b, c). no_reach shard n a b)
  shards_from-Holds shard (suc left) n =
      step-InReach shard left n (shard % count == index) (shards_from index count (suc shard) left)
        refl (shards_from-Holds (suc shard) left n)

  -- A worker consumes exactly the shards that its engine owns: those of the 256 with the worker's index as their
  -- remainder.
  pub consumed_shards_iff :
      (n : ℕ)
      → Holds (consumed_shards index count) n
        ↔ ((n < evaluation_partitions) × (owns index count n ≡ true))
  unfolding consumed_shards
  consumed_shards_iff n =
      let (f, g) = shards_from-Holds 0 256 n in
      ((λ h. let (a, b, c) = f h in (ground arith, c)), λ (b, c). g (ground arith, ground arith, c))
