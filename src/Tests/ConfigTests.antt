-- ===== src/Tests/ConfigTests.antt =====
-- The theorem on the configuration, at an environment for development.
use alerts.Common.{
  ◌*◌, ◌<◌, ◌^◌, true, ◌||◌, ok, ◌≡◌, refl, str_beq, ◌==◌, string_eq, if◌then◌else◌, arith,
}
use alerts.Common.Int.{pos, second}
use alerts.Common.Text.{codes, itoa, atoi}
use alerts.Config.{Config, System, ◌>>=◌, refuse_if, load}
use alerts.Config.Soundness.{IsSound, load-IsSound}

-- Durations are written as their nanoseconds.
abbrev development : System
development = record {
  getenv = λ key.
      if key == "ALERTS_INSECURE_NO_AUTH" || key == "ALERTS_ALLOW_MEMORY_STORE" then "true" else "";
  hostname = "host";
  pid = 1;
  parse_duration = λ text. atoi (codes text);
  duration_text = λ d. itoa d;
}

abbrev defaults : Config
defaults = record {
  addr = ":8100";
  api_token = "";
  ingest_token = "";
  database_url = "";
  nats_url = "";
  nats_token = "";
  nats_durable = "ALERTS_EVALUATOR_V3";
  nats_replicas = pos 1;
  nats_max_deliveries = pos 20;
  worker_index = pos 0;
  worker_count = pos 1;
  evaluation_batch_size = pos 32;
  nats_ack_wait = pos (30 * second);
  definition_refresh_interval = pos 250000000;
  definition_activation_delay = pos (2 * second);
  definition_max_staleness = pos second;
  maintenance_interval = pos (3600 * second);
  provisional_inbox_retention = pos (172800 * second);
  confirmed_inbox_retention = pos (2592000 * second);
  alert_event_retention = pos (31536000 * second);
  partition_lease_ttl = pos (15 * second);
  partition_lease_renew_interval = pos (5 * second);
  maintenance_batch_size = pos 5000;
  instance_id = "alertsd/host/1";
  insecure = true;
  allow_memory = true;
}

loaded : load development ≡ ok defaults
unfolding load str_beq codes itoa atoi refuse_if ◌>>=◌
loaded = refl

short_refresh : 250000000 < 2 ^ 62
short_refresh = ground arith

short_renew : 5 * second < 2 ^ 62
short_renew = ground arith

load-IsSound_example : IsSound defaults
load-IsSound_example = load-IsSound development defaults loaded short_refresh short_renew
