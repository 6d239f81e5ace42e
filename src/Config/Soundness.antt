-- ===== src/Config/Soundness.antt =====
-- What the rest of the program may rely on in a configuration.
use mathlib.Core.Path.{subst}
use alerts.Common.{
  ◌-◌, ◌*◌, ◌^◌, ◌≤◌, ◌<◌, false, not, ◌||◌, ◌&&◌, ok, ◌≡◌, ltb, arith, ◌==◌, string_eq,
}
use alerts.Common.Int.{ℤ, pos, negsuc, pos_part, ltb_ℤ, wrap_64, scale}
use alerts.Config.{Config, System, byte_count, load}
use alerts.Config.Checks.{
  IsBetween, IsPositive, Ensures, Ensures-ok, refuse_if-Ensures, integer-Ensures, duration-Ensures,
  double-wrap_64, impossible,
}

-- What the rest of the program may rely on.
abbrev pub IsSound : Config → Type 0
IsSound c =
    IsBetween 1 5 c.nats_replicas
    × IsBetween 1 100 c.nats_max_deliveries
    × IsBetween 1 256 c.worker_count
    × IsBetween 0 (pos_part c.worker_count - 1) c.worker_index
    × IsBetween 1 1000 c.evaluation_batch_size
    × IsBetween 1 100000 c.maintenance_batch_size
    × IsPositive c.nats_ack_wait
    × IsPositive c.definition_refresh_interval
    × IsPositive c.definition_max_staleness
    × (pos_part c.definition_max_staleness < pos_part c.definition_activation_delay)
    × (pos_part c.definition_refresh_interval * 2 ≤ pos_part c.definition_activation_delay)
    × IsPositive c.maintenance_interval
    × IsPositive c.provisional_inbox_retention
    × IsPositive c.confirmed_inbox_retention
    × IsPositive c.alert_event_retention
    × IsPositive c.partition_lease_renew_interval
    × (pos_part c.partition_lease_renew_interval * 2 < pos_part c.partition_lease_ttl)
    × ((c.allow_memory && ltb_ℤ (pos 1) c.worker_count) ≡ false)
    × ((not c.insecure && (ltb (byte_count c.api_token) 32 || ltb (byte_count c.ingest_token) 32))
        ≡ false)
    × ((c.database_url == "" && not c.allow_memory) ≡ false)
    × ((not (c.nats_url == "") && ltb (byte_count c.nats_token) 32) ≡ false)

-- An interval that is less than half of another one
activation_fits :
    (refresh activation staleness : ℤ)
    → IsPositive refresh
    → IsPositive activation
    → IsPositive staleness
    → pos_part refresh < 2 ^ 62
    → (ltb_ℤ activation (wrap_64 (scale refresh 2)) || not (ltb_ℤ staleness activation)) ≡ false
    → (pos_part staleness < pos_part activation) × (pos_part refresh * 2 ≤ pos_part activation)
activation_fits (pos r) (pos a) (pos s) hr ha hs l h =
    let k = rw (double-wrap_64 r l) at h in (ground arith, ground arith)
activation_fits (negsuc r) a s hr ha hs l h = elim (impossible hr) [ ]
activation_fits (pos r) (negsuc a) s hr ha hs l h = elim (impossible ha) [ ]
activation_fits (pos r) (pos a) (negsuc s) hr ha hs l h = elim (impossible hs) [ ]

renewal_fits :
    (renew ttl : ℤ)
    → IsPositive renew
    → IsPositive ttl
    → pos_part renew < 2 ^ 62
    → not (ltb_ℤ (wrap_64 (scale renew 2)) ttl) ≡ false
    → pos_part renew * 2 < pos_part ttl
renewal_fits (pos r) (pos t) hr ht l h = let k = rw (double-wrap_64 r l) at h in ground arith
renewal_fits (negsuc r) t hr ht l h = elim (impossible hr) [ ]
renewal_fits (pos r) (negsuc t) hr ht l h = elim (impossible ht) [ ]

-- Sound, if the two intervals are short.
abbrev IsSoundIf : Config → Type 0
IsSoundIf c =
    pos_part c.definition_refresh_interval < 2 ^ 62
    → pos_part c.partition_lease_renew_interval < 2 ^ 62
    → IsSound c

module _ (system : System) where
  load-Ensures : Ensures IsSoundIf (load system)
  unfolding load
  load-Ensures = integer-Ensures system IsSoundIf _ (pos 1) 1 5 _ λ replicas i₁.
      integer-Ensures system IsSoundIf _ (pos 20) 1 100 _ λ deliveries i₂.
        integer-Ensures system IsSoundIf _ (pos 1) 1 256 _ λ count i₃.
          integer-Ensures system IsSoundIf _ (pos 0) 0 (pos_part count - 1) _ λ index i₄.
            integer-Ensures system IsSoundIf _ (pos 32) 1 1000 _ λ batch i₅.
              duration-Ensures system IsSoundIf _ _ _ λ ack_wait d₁.
                duration-Ensures system IsSoundIf _ _ _ λ refresh d₂.
                  duration-Ensures system IsSoundIf _ _ _ λ activation d₃.
                    duration-Ensures system IsSoundIf _ _ _ λ staleness d₄.
                      refuse_if-Ensures IsSoundIf _ _ _ λ b₁.
                        duration-Ensures system IsSoundIf _ _ _ λ maintenance d₅.
                          duration-Ensures system IsSoundIf _ _ _ λ provisional d₆.
                            duration-Ensures system IsSoundIf _ _ _ λ confirmed d₇.
                              duration-Ensures system IsSoundIf _ _ _ λ retention d₈.
                                integer-Ensures system IsSoundIf _ (pos 5000) 1 100000 _ λ size i₆.
                                  duration-Ensures system IsSoundIf _ _ _ λ ttl d₉.
                                    duration-Ensures system IsSoundIf _ _ _ λ renew d₁₀.
                                      refuse_if-Ensures IsSoundIf _ _ _ λ b₂.
                                        refuse_if-Ensures IsSoundIf _ _ _ λ b₃.
                                          refuse_if-Ensures IsSoundIf _ _ _ λ b₄.
                                            refuse_if-Ensures IsSoundIf _ _ _ λ b₅.
                                              refuse_if-Ensures IsSoundIf _ _ _ λ b₆.
                                                Ensures-ok IsSoundIf _ λ short_refresh short_renew.
                                                  let (s₁, s₂) =
                                                    activation_fits refresh activation staleness d₂
                                                      d₃ d₄ short_refresh b₁ in
                                                  let s₃ =
                                                    renewal_fits renew ttl d₁₀ d₉ short_renew b₂ in
                                                  (
                                                    i₁, i₂, i₃, i₄, i₅, i₆, d₁, d₂, d₄, s₁, s₂, d₅,
                                                    d₆, d₇, d₈, d₁₀, s₃, b₃, b₄, b₅, b₆,
                                                  )

  -- Where Load returns a configuration whose refresh and renewal intervals are below 2^62 nanoseconds, the numbers
  -- are in their ranges, the worker's index is below the count, the durations are positive, a definition is active
  -- only after two refreshes and after the longest staleness, a lease is renewed more than twice in its time, and
  -- the tokens, the database and the store are as the checks ask.
  pub load-IsSound :
      (c : Config)
      → load system ≡ ok c
      → pos_part c.definition_refresh_interval < 2 ^ 62
      → pos_part c.partition_lease_renew_interval < 2 ^ 62
      → IsSound c
  unfolding Ensures
  load-IsSound c h = subst (Ensures IsSoundIf) h load-Ensures
