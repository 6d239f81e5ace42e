-- ===== src/Tests/ServiceTests.antt =====
-- The theorems on the service, at a concrete service, definition and batch.
use alerts.Common.{ℕ, ◌≡◌, refl, true, some, [], ◌∷◌, any, is_some, str_beq, ok, err}
use alerts.Common.Int.{pos}
use alerts.Model.{Observation}
use alerts.Rules.Kinds.{rule_type, requires_intrabar}
use alerts.Rules.Validate.{validate_at, count_rules}
use alerts.Store.Memory.{new_memory}
use alerts.Service.{ServiceError, check_definition, ingest_batch}
use alerts.Service.Observations.{validate_observation}
use alerts.Service.Acceptance.{IsAcceptable, check_definition-IsAcceptable, ingest_batch_refused}
use alerts.Common.{none, length, keep, ◌+◌, ◌*◌, ◌<◌, arith}
use alerts.Store.Memory.{Memory}
use alerts.Store.Memory.Outbox.Pending.{pending, IsDistinct}
use alerts.Engine.Batch.{make_alert}
use alerts.Service.Publishing.{Publisher, Counts, publish_passes}
use alerts.Service.Publishing.Drain.{publish_passes-pending, Drained}
use alerts.Tests.{
  whole_numbers, sample_platform, bitcoin, red_candle, first, red_alert, sample_repository,
  sample_service,
}

red_candle_checked :
    check_definition "red" bitcoin red_candle "" "every_match" (pos 60)
    ≡ ok ("confirmed_close", "every_match")
unfolding check_definition validate_at rule_type str_beq requires_intrabar count_rules
red_candle_checked = refl

check_definition-IsAcceptable_example :
    IsAcceptable "red" bitcoin red_candle (pos 60) ("confirmed_close", "every_match")
check_definition-IsAcceptable_example =
    check_definition-IsAcceptable "red" bitcoin red_candle "" "every_match" (pos 60)
      "confirmed_close" "every_match" red_candle_checked

abbrev no_schema : Observation ℕ
no_schema = record first { schema = "" }

first_refused : any (λ o. is_some (validate_observation o)) (first ∷ no_schema ∷ []) ≡ true
unfolding validate_observation str_beq
first_refused = refl

ingest_batch_refused_example :
    (x : ServiceError) × (ingest_batch sample_repository sample_service new_memory 1 1 5
        (pos 0)
        (first ∷ no_schema ∷ [])
      ≡ some (sample_service, new_memory, err x))
ingest_batch_refused_example =
    ingest_batch_refused sample_repository sample_service new_memory 1 1 5 (pos 0)
      (first ∷ no_schema ∷ []) first_refused

-- Two pending alerts, and a publisher that never fails.
abbrev outbox : Memory ℕ
outbox = record new_memory {
  alerts =
      record (make_alert 1 red_alert first [] []) { id = "a" }
      ∷ record (make_alert 1 red_alert first [] []) { id = "b" }
      ∷ [];
}

abbrev accepting : Publisher ℕ ℕ
accepting n a = (n + 1, none)

abbrev no_counts : Counts
no_counts = record { published = 0; publish_fails = 0 }

outbox-IsDistinct : IsDistinct outbox.alerts
unfolding str_beq
outbox-IsDistinct = (refl, (refl, tt))

outbox_short : length (pending outbox.alerts) < 1 * 100
unfolding keep str_beq make_alert
outbox_short = ground arith

publish_passes-pending_example :
    Drained (publish_passes sample_repository accepting 1 no_counts outbox 0)
publish_passes-pending_example =
    publish_passes-pending sample_repository accepting (λ m. refl) (λ m id. refl) (λ q a. refl) 1
      no_counts outbox 0 outbox-IsDistinct outbox_short
