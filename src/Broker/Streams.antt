-- ===== src/Broker/Streams.antt =====
-- Options, streams, consumers and the shards of a worker in internal/broker/jetstream.go. The server's state and
-- its calls are parameters.
pub mod Shards
use alerts.Common.{
  ℕ, zero, suc, ◌+◌, ◌*◌, ◌%◌, ◌^◌, String, ◌<>◌, Bool, true, false, not, ◌&&◌, ◌||◌, Option, none,
  some, List, [], ◌∷◌, length, ltb, leb, ◌==◌, nat_eq, string_eq, if◌then◌else◌, Result, ok, err,
}
use alerts.Common.Int.{ℤ, pos, ltb_ℤ, second}
use alerts.Broker.{evaluation_partitions}

-- The options with numbers; an index or a count may be negative.
pub record Options : Type 0 where
  pub durable : String
  pub replicas : ℤ
  pub max_deliveries : ℤ
  pub ack_wait : ℤ
  pub worker_index : ℤ
  pub worker_count : ℤ
  pub batch_size : ℤ

abbrev at_least : ℤ → ℤ → ℤ
at_least x default = if ltb_ℤ x (pos 1) then default else x

-- The defaults and the check of Open; none is the error on the worker index.
unfoldable pub open_options : Options → Option Options
open_options o =
    let count = at_least o.worker_count (pos 1) in
    if ltb_ℤ o.worker_index (pos 0) || not (ltb_ℤ o.worker_index count)
    then none
    else some (record {
      durable = if o.durable == "" then "ALERTS_EVALUATOR_V3" else o.durable;
      replicas = at_least o.replicas (pos 1);
      max_deliveries = at_least o.max_deliveries (pos 20);
      ack_wait = at_least o.ack_wait (pos (30 * second));
      worker_index = o.worker_index;
      worker_count = count;
      batch_size = at_least o.batch_size (pos 32);
    })

-- The fields of nats.StreamConfig that the code sets or compares. Retention, storage and durations are numbers.
pub record StreamConfig : Type 0 where
  pub name : String
  pub subjects : List String
  pub retention : ℕ
  pub storage : ℕ
  pub replicas : ℤ
  pub max_age : ℤ
  pub max_msgs_per_subject : ℤ
  pub max_msg_size : ℤ
  pub duplicates : ℤ
  pub allow_rollup : Bool

abbrev same_int : ℤ → ℤ → Bool
same_int a b = not (ltb_ℤ a b) && not (ltb_ℤ b a)

abbrev same_bool : Bool → Bool → Bool
same_bool a b = if a then b else not b

abbrev same_only : List String → List String → Bool
same_only (a ∷ []) (b ∷ []) = a == b
same_only a b = false

unfoldable pub same_stream_config : StreamConfig → StreamConfig → Bool
same_stream_config got want =
    got.name == want.name
    && (same_only got.subjects want.subjects
        && (got.retention == want.retention
            && (got.storage == want.storage
                && (same_int got.replicas want.replicas
                    && (same_int got.max_age want.max_age
                        && (same_int got.max_msgs_per_subject want.max_msgs_per_subject
                            && (same_int got.max_msg_size want.max_msg_size
                                && (same_int got.duplicates want.duplicates
                                    && same_bool got.allow_rollup want.allow_rollup))))))))

-- The errors of the server that the code tells from others.
pub data StreamError : Type 0 where
  not_found name_in_use : StreamError
  other_error : String → StreamError

-- The calls of the server on streams, over its state.
pub record StreamServer (S : Type 0) : Type 0 where
  pub stream_info : S → String → Result StreamError StreamConfig
  pub update_stream : S → StreamConfig → S × Option StreamError
  pub add_stream : S → StreamConfig → S × Option StreamError

module _ {S : Type 0} (server : StreamServer S) where
  unfoldable pub ensure_stream : S → StreamConfig → S × Option StreamError
  unfolding same_stream_config
  ensure_stream s config = elim (server.stream_info s config.name) [
    | ok got ↦ if same_stream_config got config then (s, none) else server.update_stream s config
    | err not_found ↦
        let (s', added) = server.add_stream s config in
        (
          s',
          elim added [
            | none ↦ none
            | some not_found ↦ some not_found
            | some name_in_use ↦ none
            | some (other_error x) ↦ some (other_error x)
          ],
        )
    | err name_in_use ↦ (s, some name_in_use)
    | err (other_error x) ↦ (s, some (other_error x))
  ]

-- The loop of Consume: the shards from a number on, as many as the fuel says, that are consumed.
unfoldable pub shards_from : ℕ → ℕ → ℕ → ℕ → List ℕ
shards_from index count shard zero = []
shards_from index count shard (suc left) =
    let rest = shards_from index count (suc shard) left in
    if shard % count == index then shard ∷ rest else rest

unfoldable pub consumed_shards : ℕ → ℕ → List ℕ
unfolding shards_from
consumed_shards index count = shards_from index count 0 evaluation_partitions
