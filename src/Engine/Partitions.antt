-- ===== src/Engine/Partitions.antt =====
-- The 256 logical partitions of internal/runtime/engine.go: FNV-1a over the series, and ownership.
pub mod Keys
use Prim.Native.Nat.{bit_xor}
use alerts.Common.{
  ℕ, zero, suc, ◌+◌, ◌*◌, ◌^◌, ◌%◌, String, ◌<>◌, Bool, true, false, List, [], ◌∷◌, ◌++◌, length,
  ◌==◌, nat_eq, if◌then◌else◌, Option, none, some, ◌>>=◌, ◌≡◌, refl,
}
use Prim.Native.Char.{code}
use alerts.Common.Text.{bytes}
use alerts.Model.{Series}
use alerts.Engine.State.{Engine}

fnv_step : ℕ → List ℕ → ℕ
fnv_step h [] = h
fnv_step h (b ∷ bs) = fnv_step (bit_xor h b * 16777619 % 2 ^ 32) bs

-- hash/fnv's New32a over the bytes of a text
unfoldable pub fnv_32a : String → ℕ
unfolding fnv_step bytes
fnv_32a s = fnv_step 2166136261 (bytes s)

abbrev pub default_partitions : ℕ
default_partitions = 256

unfoldable pub route_key : Series → String
route_key s = s.dataset <> "\0" <> s.symbol <> "\0" <> s.timeframe

-- Partition, for a number of partitions
unfoldable pub partition_of : ℕ → Series → ℕ
unfolding fnv_32a route_key
partition_of count s = fnv_32a (route_key s) % count

-- strings.Cut(s, sep) for a separator of one character: what stands before the first one and after it.
unfoldable pub cut : ℕ → String → Option (String × String)
cut sep String.[] = none
cut sep (String.◌∷◌ c s) =
    let rest = cut sep s in
    elim (code c == sep) [
      | true ↦ some (String.[], s)
      | false ↦ elim rest [ none ↦ none | some (before, after) ↦ some (String.◌∷◌ c before, after) ]
    ]

-- strings.SplitN(key, "/", 3), where it has three parts
unfoldable pub split_key : String → Option Series
unfolding cut
split_key key = cut b'/' key >>= λ (dataset, rest). cut b'/' rest >>= λ (symbol, timeframe).
    some (record { dataset = dataset; symbol = symbol; timeframe = timeframe })

unfoldable pub partition_for_key : ℕ → String → ℕ
unfolding split_key partition_of fnv_32a
partition_for_key count key = elim (split_key key) [
  | some s ↦ partition_of count s
  | none ↦ fnv_32a key % count
]

-- definitionSeriesKey: what follows the first '|', or the whole key
unfoldable pub definition_series_key : String → String
unfolding cut
definition_series_key key = elim (cut b'|' key) [ some (before, after) ↦ after | none ↦ key ]

unfoldable pub owns : ℕ → ℕ → ℕ → Bool
owns worker_index worker_count partition = partition % worker_count == worker_index

owned_below : ℕ → ℕ → ℕ → List ℕ
unfolding owns
owned_below zero index count = []
owned_below (suc n) index count =
    let rest = owned_below n index count in if owns index count n then rest ++ n ∷ [] else rest

-- ownedPartitions
unfoldable pub owned_partitions : {F : Type 0} → Engine F → List ℕ
unfolding owned_below
owned_partitions e = owned_below (length e.partitions) e.worker_index e.worker_count
