-- ===== src/Store/Memory/Leases.antt =====
-- The partition leases of internal/store/memory.go.
pub mod Exclusion
use alerts.Common.{
  ℕ, String, Bool, true, false, not, ◌&&◌, ◌||◌, List, [], ◌∷◌, length, keep, ◌==◌, nat_eq,
  string_eq, if◌then◌else◌, or_zero,
}
use alerts.Common.Dict.{Dict, lookup, insert}
use alerts.Store.Memory.{Memory}

-- A partition without a lease has the owner "".
abbrev pub holder : ℕ → Dict ℕ String → String
holder partition leases = or_zero "" (lookup partition leases)

unfoldable pub lease_all : String → List ℕ → Dict ℕ String → Dict ℕ String
lease_all owner [] leases = leases
lease_all owner (p ∷ ps) leases = lease_all owner ps (insert p owner leases)

-- Whether another owner holds one of the partitions.
unfoldable pub is_contested : String → List ℕ → Dict ℕ String → Bool
unfolding lookup
is_contested owner [] leases = false
is_contested owner (p ∷ ps) leases =
    (not (holder p leases == "") && not (holder p leases == owner)) || is_contested owner ps leases

keep_leases : String → Dict ℕ String → Dict ℕ String
keep_leases owner [] = []
keep_leases owner ((p, current) ∷ d) =
    let rest = keep_leases owner d in if current == owner then rest else (p, current) ∷ rest

module _ {F : Type 0} where
  -- AcquirePartitions, and RenewPartitions, which calls it.
  unfoldable pub acquire_partitions : String → List ℕ → Memory F → Memory F × Bool
  unfolding is_contested lease_all
  acquire_partitions owner partitions m =
      if is_contested owner partitions m.leases
      then (m, false)
      else (record m { leases = lease_all owner partitions m.leases }, true)

  unfoldable pub release_partitions : String → Memory F → Memory F
  unfolding keep_leases
  release_partitions owner m = record m { leases = keep_leases owner m.leases }

  -- OperationalStats' PendingOutbox
  unfoldable pub pending_outbox : Memory F → ℕ
  unfolding keep
  pending_outbox m = length (keep (λ a. a.publish_status == "pending") m.alerts)
