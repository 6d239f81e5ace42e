-- ===== src/Config.antt =====
-- internal/config/config.go: the configuration from the environment.
pub mod Checks
pub mod Soundness
use alerts.Common.{
  ℕ, ◌+◌, ◌-◌, ◌*◌, String, ◌<>◌, Bool, not, ◌&&◌, ◌||◌, Option, none, some, List, [], ◌∷◌, map,
  length, ltb, leb, ◌==◌, nat_eq, string_eq, str_beq, if◌then◌else◌, Result, ok, err,
}
use alerts.Common.Int.{ℤ, pos, pos_part, ltb_ℤ, wrap_64, scale, second}
use alerts.Common.Text.{same_codes, codes, bytes, itoa, atoi}

pub record Config : Type 0 where
  pub addr : String
  pub api_token : String
  pub ingest_token : String
  pub database_url : String
  pub nats_url : String
  pub nats_token : String
  pub nats_durable : String
  pub nats_replicas : ℤ
  pub nats_max_deliveries : ℤ
  pub worker_index : ℤ
  pub worker_count : ℤ
  pub evaluation_batch_size : ℤ
  pub nats_ack_wait : ℤ
  pub definition_refresh_interval : ℤ
  pub definition_activation_delay : ℤ
  pub definition_max_staleness : ℤ
  pub maintenance_interval : ℤ
  pub provisional_inbox_retention : ℤ
  pub confirmed_inbox_retention : ℤ
  pub alert_event_retention : ℤ
  pub partition_lease_ttl : ℤ
  pub partition_lease_renew_interval : ℤ
  pub maintenance_batch_size : ℤ
  pub instance_id : String
  pub insecure : Bool
  pub allow_memory : Bool

-- What the code takes from packages os and time: the variables of the environment, the host's name and the
-- number of the process, and time.ParseDuration and Duration.String.
pub record System : Type 0 where
  pub getenv : String → String
  pub hostname : String
  pub pid : ℕ
  pub parse_duration : String → Option ℤ
  pub duration_text : ℤ → String

pub data ConfigError : Type 0 where
  not_integer : String → ℤ → ℤ → ConfigError
  not_duration : String → ConfigError
  bad_activation_delay bad_renew_interval memory_not_shared tokens_too_short database_required
        nats_token_too_short :
      ConfigError

abbrev fold_case : ℕ → ℕ
fold_case c = if leb b'A' c && leb c b'Z' then c + 32 else c

-- strings.EqualFold(s, "true"); none of its letters has another case than its capital.
unfoldable pub is_true : String → Bool
unfolding codes
is_true s = same_codes (map fold_case (codes s)) (codes "true")

-- len of a text
abbrev pub byte_count : String → ℕ
byte_count s = length (bytes s)

-- if err != nil { return Config{}, err }
infixl 5 ◌>>=◌ ◌>>◌
unfoldable pub ◌>>=◌ :
    {A B : Type 0} → Result ConfigError A → (A → Result ConfigError B) → Result ConfigError B
err x >>= f = err x
ok a >>= f = f a

abbrev pub ◌>>◌ :
    {B : Type 0} → Result ConfigError (Unit {0}) → Result ConfigError B → Result ConfigError B
r >> k = r >>= λ u. k

unfoldable pub refuse_if : Bool → ConfigError → Result ConfigError (Unit {0})
refuse_if bad x = if bad then err x else ok tt

module _ (system : System) where
  unfoldable pub env : String → String → String
  env key fallback = let value = system.getenv key in if not (value == "") then value else fallback

  unfoldable pub instance_id : String → String
  unfolding itoa
  instance_id prefix = prefix <> "/" <> system.hostname <> "/" <> itoa (pos system.pid)

  unfoldable pub integer : String → ℤ → ℤ → ℤ → Result ConfigError ℤ
  unfolding env atoi
  integer key fallback minimum maximum = elim (atoi (codes (env key (itoa fallback)))) [
    | none ↦ err (not_integer key minimum maximum)
    | some value ↦
        if ltb_ℤ value minimum || ltb_ℤ maximum value
        then err (not_integer key minimum maximum)
        else ok value
  ]

  unfoldable pub duration : String → ℤ → Result ConfigError ℤ
  unfolding env
  duration key fallback = elim (system.parse_duration (env key (system.duration_text fallback))) [
    | none ↦ err (not_duration key)
    | some value ↦ if not (ltb_ℤ (pos 0) value) then err (not_duration key) else ok value
  ]

  -- Load. The worker count that bounds the index is positive there.
  unfoldable pub load : Result ConfigError Config
  unfolding integer duration is_true instance_id wrap_64 scale bytes
  load = do
    let api_token = system.getenv "ALERTS_API_TOKEN"
    let ingest_token = system.getenv "ALERTS_INGEST_TOKEN"
    let database_url = system.getenv "ALERTS_DATABASE_URL"
    let nats_url = system.getenv "ALERTS_NATS_URL"
    let nats_token = system.getenv "ALERTS_NATS_TOKEN"
    let insecure = is_true (system.getenv "ALERTS_INSECURE_NO_AUTH")
    let allow_memory = is_true (system.getenv "ALERTS_ALLOW_MEMORY_STORE")
    replicas ← integer "ALERTS_NATS_REPLICAS" (pos 1) (pos 1) (pos 5)
    max_deliveries ← integer "ALERTS_NATS_MAX_DELIVERIES" (pos 20) (pos 1) (pos 100)
    count ← integer "ALERTS_WORKER_COUNT" (pos 1) (pos 1) (pos 256)
    index ← integer "ALERTS_WORKER_INDEX" (pos 0) (pos 0) (pos (pos_part count - 1))
    batch_size ← integer "ALERTS_EVALUATION_BATCH_SIZE" (pos 32) (pos 1) (pos 1000)
    ack_wait ← duration "ALERTS_NATS_ACK_WAIT" (pos (30 * second))
    refresh ← duration "ALERTS_DEFINITION_REFRESH_INTERVAL" (pos 250000000)
    activation ← duration "ALERTS_DEFINITION_ACTIVATION_DELAY" (pos (2 * second))
    staleness ← duration "ALERTS_DEFINITION_MAX_STALENESS" (pos second)
    refuse_if (ltb_ℤ activation (wrap_64 (scale refresh 2)) || not (ltb_ℤ staleness activation))
        bad_activation_delay
    maintenance ← duration "ALERTS_MAINTENANCE_INTERVAL" (pos (3600 * second))
    provisional ← duration "ALERTS_PROVISIONAL_INBOX_RETENTION" (pos (48 * 3600 * second))
    confirmed ← duration "ALERTS_CONFIRMED_INBOX_RETENTION" (pos (30 * 24 * 3600 * second))
    retention ← duration "ALERTS_EVENT_RETENTION" (pos (365 * 24 * 3600 * second))
    maintenance_size ← integer "ALERTS_MAINTENANCE_BATCH_SIZE" (pos 5000) (pos 1) (pos 100000)
    ttl ← duration "ALERTS_PARTITION_LEASE_TTL" (pos (15 * second))
    renew ← duration "ALERTS_PARTITION_LEASE_RENEW_INTERVAL" (pos (5 * second))
    refuse_if (not (ltb_ℤ (wrap_64 (scale renew 2)) ttl)) bad_renew_interval
    refuse_if (allow_memory && ltb_ℤ (pos 1) count) memory_not_shared
    refuse_if (not insecure && (ltb (byte_count api_token) 32 || ltb (byte_count ingest_token) 32))
        tokens_too_short
    refuse_if (database_url == "" && not allow_memory) database_required
    refuse_if (not (nats_url == "") && ltb (byte_count nats_token) 32) nats_token_too_short
    ok (record {
      addr = env "ALERTS_HTTP_ADDR" ":8100";
      api_token = api_token;
      ingest_token = ingest_token;
      database_url = database_url;
      nats_url = nats_url;
      nats_token = nats_token;
      nats_durable = env "ALERTS_NATS_DURABLE" "ALERTS_EVALUATOR_V3";
      nats_replicas = replicas;
      nats_max_deliveries = max_deliveries;
      worker_index = index;
      worker_count = count;
      evaluation_batch_size = batch_size;
      nats_ack_wait = ack_wait;
      definition_refresh_interval = refresh;
      definition_activation_delay = activation;
      definition_max_staleness = staleness;
      maintenance_interval = maintenance;
      provisional_inbox_retention = provisional;
      confirmed_inbox_retention = confirmed;
      alert_event_retention = retention;
      partition_lease_ttl = ttl;
      partition_lease_renew_interval = renew;
      maintenance_batch_size = maintenance_size;
      instance_id = instance_id (env "ALERTS_INSTANCE_ID" "alertsd");
      insecure = insecure;
      allow_memory = allow_memory;
    })
