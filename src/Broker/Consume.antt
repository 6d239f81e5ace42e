-- ===== src/Broker/Consume.antt =====
-- No message of a batch is forgotten.
use alerts.Common.{ℕ, Option, none, some, List, [], ◌∷◌}
use alerts.Common.Int.{ℤ}
use alerts.Model.{Float64, Observation}
use alerts.Broker.{
  Message, ack, ingest, Log, Answers, ConsumeError, dead_letter_failed, not_terminated, ack_failed,
  evaluation_failed, nak_failed, Decoder, last_of, observations_of,
}
use alerts.Broker.Settling.{Called, IsReturned}
use alerts.Broker.Batches.{readings, AllSettled}

module _ {F : Type 0} where
  -- The last message of the readings was acknowledged, and with it all before it.
  abbrev pub IsAcked : List (Message × Observation F) → Log F → Type 0
  IsAcked [] log = ⊥
  IsAcked ((m, o) ∷ ms) log = Called (ack (last_of m ms)) log

  -- The observations of the readings were passed to the sink in one call.
  abbrev pub IsIngested : ℕ → List (Message × Observation F) → Log F → Type 0
  IsIngested partition found log = Called (ingest partition (observations_of found)) log

  module _ (answer : Answers F) ⦃fl : Float64 F⦄ (decoder : Decoder F) (max_deliveries : ℤ)
      (partition : ℕ) where
    -- How a batch leaves its messages. Those that cannot be read are buried, each for its own reason. All others
    -- have been evaluated in their order and acknowledged, or, where the evaluation failed, each is returned; where
    -- a call of the server failed, they are open.
    abbrev pub Settles : List Message → Log F × Option ConsumeError → Type 0
    Settles ms (log, none) =
        AllSettled decoder
          (λ m. IsIngested partition (readings decoder ms) log × IsAcked (readings decoder ms) log)
          log ms
    Settles ms (log, some (evaluation_failed x)) =
        IsIngested partition (readings decoder ms) log
        × AllSettled decoder (λ m. IsReturned max_deliveries x log m) log ms
    Settles ms (log, some (dead_letter_failed x)) = Unit
    Settles ms (log, some (not_terminated x)) = Unit
    Settles ms (log, some (ack_failed x)) = Unit
    Settles ms (log, some (nak_failed x y)) = Unit
