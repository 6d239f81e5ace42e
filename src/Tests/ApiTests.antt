-- ===== src/Tests/ApiTests.antt =====
-- The theorems on the API, at a concrete service and requests.
use alerts.Common.{ℕ, String, false, none, some, ◌≡◌, refl}
use alerts.Common.Text.{codes}
use alerts.Common.Int.{ℤ}
use alerts.Model.{Series, Rule}
use alerts.Store.Memory.{new_memory}
use alerts.Signals.{Json}
use alerts.Api.{Options, Clock, delete_definition, control, respond, problem, serve}
use alerts.Api.Access.{serve_unread}
use alerts.Tests.{whole_numbers, sample_platform, sample_repository, sample_service}

abbrev options : Options
options = record { api_token = "secret"; ingest_token = "other"; insecure = false }

abbrev noon : Clock
noon = record { checked = 1; now = 1; duration = 5 }

abbrev no_outputs : Json ℕ
no_outputs = record { number_of = λ text. none; zones_of = λ text. none; points_of = λ text. none }

abbrev plain_text : Series → Rule ℕ → String → String → ℤ → String
plain_text series rule mode trigger cooldown = "definition"

denied :
    serve sample_repository no_outputs plain_text options noon "Bearer guess"
      (control (delete_definition "red"))
      sample_service
      new_memory
    ≡ some ((sample_service, new_memory), respond 401 (problem "unauthorized"))
unfolding serve codes
denied = refl

serve_unread_example : (sample_service ≡ sample_service) × (new_memory {F = ℕ} ≡ new_memory)
serve_unread_example =
    serve_unread sample_repository no_outputs plain_text options noon "Bearer guess"
      (control (delete_definition "red")) sample_service sample_service new_memory new_memory
      (respond 401 (problem "unauthorized")) denied refl
