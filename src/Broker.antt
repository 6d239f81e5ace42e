-- ===== src/Broker.antt =====
-- internal/broker/jetstream.go: batches of messages are decoded, evaluated and settled, and alerts are published.
-- The NATS server and the sink are seen through a log of the calls made to them, the last call first. Their
-- answer to a call, which may depend on all calls before it, is a parameter.
pub mod Streams
pub mod Delays
pub mod Settling
pub mod Batches
pub mod Consume
use alerts.Common.{
  ℕ, ◌+◌, ◌-◌, ◌*◌, ◌^◌, ◌%◌, String, ◌<>◌, Bool, not, Option, none, some, List, [], ◌∷◌, ltb, leb,
  ◌==◌, nat_eq, string_eq, if◌then◌else◌, ◌>>=◌, Result, ok, err, is_some,
}
use alerts.Common.Int.{ℤ, pos, leb_ℤ, ltb_ℤ, wrap_64, scale, second}
use alerts.Common.Text.{itoa}
use alerts.Model.{Float64, Observation, Alert, series_key}
use alerts.Engine.Partitions.{fnv_32a}
use alerts.Signals.{Event, Json, SignalError, adapt}

abbrev pub evaluation_partitions : ℕ
evaluation_partitions = 256

abbrev pub dead_letter_subject : String
dead_letter_subject = "alerts.dlq.signals"

-- A message of a consumer; its count of deliveries is none where its metadata cannot be read, and a missing
-- Nats-Msg-Id is empty.
pub record Message : Type 0 where
  pub payload : String
  pub subject : String
  pub message_id : String
  pub delivered : Option ℕ

-- A message to publish, with the headers that the code sets.
pub record Publication : Type 0 where
  pub subject : String
  pub payload : String
  pub headers : List (String × String)

pub data Call (F : Type 0) : Type 0 where
  publish : Publication → Call F
  terminate ack : Message → Call F
  nak : Message → ℤ → Call F
  ingest : ℕ → List (Observation F) → Call F

abbrev pub Log : Type 0 → Type 0
Log F = List (Call F)

-- The answer to the last call of a log: an error, or none.
abbrev pub Answers : Type 0 → Type 0
Answers F = Log F → Option String

pub data ConsumeError : Type 0 where
  dead_letter_failed not_terminated ack_failed evaluation_failed : String → ConsumeError
  nak_failed : String → String → ConsumeError

-- %03d
unfoldable pub three_digits : ℕ → String
unfolding itoa
three_digits n = (if ltb n 10 then "00" else if ltb n 100 then "0" else "") <> itoa (pos n)

unfoldable pub alert_subject : {F : Type 0} → Alert F → String
unfolding three_digits
alert_subject a =
    "alerts.events." <> three_digits (fnv_32a (series_key a.series) % evaluation_partitions)

-- The delay before the next delivery, from the count of deliveries: the shift is one of uint64, the product and the
-- delay are of time.Duration.
unfoldable pub retry_delay : ℕ → ℤ
unfolding wrap_64 scale
retry_delay delivery =
    let counted = if delivery == 0 then 1 else delivery in
    let exponent = if ltb 9 (counted - 1) then 9 else counted - 1 in
    let delay = wrap_64 (scale (wrap_64 (pos (2 ^ exponent % 2 ^ 64))) second) in
    if ltb_ℤ (pos (300 * second)) delay then pos (300 * second) else delay

-- The message that goes to the dead-letter stream
unfoldable pub dead_message : Message → String → Publication
dead_message m reason = record {
  subject = dead_letter_subject;
  payload = m.payload;
  headers =
      ("X-Dead-Letter-Reason", reason)
      ∷ ("X-Original-Subject", m.subject)
      ∷ (if m.message_id == "" then [] else ("Nats-Msg-Id", "dlq-" <> m.message_id) ∷ []);
}

-- json.Marshal of an alert is a parameter.
unfoldable pub alert_message :
    {F : Type 0} → (Alert F → Option String) → Alert F → Option Publication
unfolding alert_subject
alert_message marshal a = marshal (record a { publish_status = "" }) >>= λ payload. some (record {
  subject = alert_subject a;
  payload = payload;
  headers = ("Nats-Msg-Id", a.id) ∷ ("Content-Type", "application/json") ∷ [];
})

-- What the consumer takes from encoding/json and from the errors of the adapter: json.Unmarshal of an event, and
-- the texts of errors.
pub record Decoder (F : Type 0) : Type 0 where
  pub event_of : String → Result String (Event F)
  pub json : Json F
  pub message_of : SignalError → String

-- A message that has been sent often enough.
abbrev pub is_exhausted : ℤ → Message → Bool
is_exhausted max_deliveries m = elim m.delivered [
  | none ↦ Bool.false
  | some n ↦ leb_ℤ max_deliveries (wrap_64 (pos n))
]

abbrev pub deliveries_of : Message → ℕ
deliveries_of m = elim m.delivered [ none ↦ 1 | some n ↦ n ]

abbrev pub last_of : {F : Type 0} → Message → List (Message × Observation F) → Message
last_of m [] = m
last_of m ((n, o) ∷ ms) = last_of n ms

abbrev pub observations_of : {F : Type 0} → List (Message × Observation F) → List (Observation F)
observations_of [] = []
observations_of ((m, o) ∷ ms) = o ∷ observations_of ms

module _ {F : Type 0} ⦃fl : Float64 F⦄ (decoder : Decoder F) where
  -- The observation of a message, or the reason why it goes to the dead letters.
  unfoldable pub read_message : Message → Result String (Observation F)
  unfolding adapt
  read_message m = elim (decoder.event_of m.payload) [
    | err x ↦ err ("decode event: " <> x)
    | ok event ↦ elim (adapt decoder.json event) [
      | err x ↦ err ("invalid event: " <> decoder.message_of x)
      | ok o ↦ ok o
    ]
  ]

module _ {F : Type 0} (answer : Answers F) where
  abbrev call : Call F → Log F → Log F × Option String
  call c log = (c ∷ log, answer (c ∷ log))

  -- Publish; none is an error of the encoding.
  unfoldable pub publish_alert :
      (Alert F → Option String) → Alert F → Log F → Option (Log F × Option String)
  unfolding alert_message
  publish_alert marshal a log = alert_message marshal a >>= λ m. some (call (publish m) log)

  unfoldable pub dead_letter : Message → String → Log F → Log F × Option ConsumeError
  unfolding dead_message
  dead_letter m reason log =
      let (published, refused) = call (publish (dead_message m reason)) log in
      elim refused [
        | some x ↦ ((call (nak m (pos (5 * second))) published).0, some (dead_letter_failed x))
        | none ↦
            let (terminated, failed) = call (terminate m) published in
            (terminated, elim failed [ some x ↦ some (not_terminated x) | none ↦ none ])
      ]

  module _ ⦃fl : Float64 F⦄ (decoder : Decoder F) where
    -- The first loop of consumeBatch: the messages that have an observation, with it, unless a dead letter fails.
    unfoldable pub read_messages :
        List Message → Log F → Log F × Result ConsumeError (List (Message × Observation F))
    unfolding read_message dead_letter
    read_messages [] log = (log, ok [])
    read_messages (m ∷ ms) log = elim (read_message decoder m) [
      | err reason ↦
          let (log', failed) = dead_letter m reason log in
          let rest = read_messages ms log' in elim failed [ some x ↦ (log', err x) | none ↦ rest ]
      | ok o ↦
          let (log', others) = read_messages ms log in
          (log', elim others [ err x ↦ err x | ok found ↦ ok ((m, o) ∷ found) ])
    ]

    -- One turn of the loop after a failed evaluation.
    unfoldable pub retry_message : ℤ → String → Message → Log F → Log F × Option ConsumeError
    unfolding dead_letter retry_delay
    retry_message max_deliveries x m log =
        if is_exhausted max_deliveries m
        then dead_letter m ("evaluation failed after retries: " <> x) log
        else (let (nacked, failed) = call (nak m (retry_delay (deliveries_of m))) log in
            (nacked, elim failed [ some y ↦ some (nak_failed x y) | none ↦ none ]))

    unfoldable pub retry_messages :
        ℤ
        → String
        → List (Message × Observation F)
        → Log F × Option ConsumeError
        → Log F × Option ConsumeError
    unfolding retry_message
    retry_messages max_deliveries x ms (log, some y) = (log, some y)
    retry_messages max_deliveries x [] (log, none) = (log, some (evaluation_failed x))
    retry_messages max_deliveries x ((m, o) ∷ ms) (log, none) =
        retry_messages max_deliveries x ms (retry_message max_deliveries x m log)

    -- consumeBatch after its first loop
    unfoldable pub evaluate_messages :
        ℤ
        → ℕ
        → Log F × Result ConsumeError (List (Message × Observation F))
        → Log F × Option ConsumeError
    unfolding retry_messages
    evaluate_messages max_deliveries partition (log, err x) = (log, some x)
    evaluate_messages max_deliveries partition (log, ok []) = (log, none)
    evaluate_messages max_deliveries partition (log, ok ((m, o) ∷ ms)) =
        let (ingested, failed) = call (ingest partition (o ∷ observations_of ms)) log in
        elim failed [
          | some x ↦ retry_messages max_deliveries x ((m, o) ∷ ms) (ingested, none)
          | none ↦
              let (acked, refused) = call (ack (last_of m ms)) ingested in
              (acked, elim refused [ some x ↦ some (ack_failed x) | none ↦ none ])
        ]

    unfoldable pub consume_batch : ℤ → ℕ → List Message → Log F → Log F × Option ConsumeError
    unfolding evaluate_messages read_messages
    consume_batch max_deliveries partition ms log =
        evaluate_messages max_deliveries partition (read_messages ms log)
