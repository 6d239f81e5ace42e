-- ===== src/Broker/Batches.antt =====
-- The two loops of a batch.
use alerts.Common.{String, Option, none, some, List, [], ◌∷◌, Result, ok, err, ◌≡◌, refl, ap, All}
use alerts.Common.Int.{ℤ}
use alerts.Model.{Float64, Observation}
use alerts.Broker.{
  Message, Log, Answers, ConsumeError, dead_letter_failed, not_terminated, ack_failed,
  evaluation_failed, nak_failed, Decoder, dead_letter, read_message, read_messages, retry_message,
  retry_messages,
}
use alerts.Broker.Settling.{
  Keeps, Keeps-refl, Keeps-trans, IsBuried, IsReturned, IsReturned-Keeps, Does, dead_letter-Does,
  retry_message-Does,
}

module _ {F : Type 0} where
  -- The loop after a failed evaluation ended with its error, and every reading was returned.
  abbrev pub AllReturned :
      ℤ → String → List (Message × Observation F) → Log F → Log F × Option ConsumeError → Type 0
  AllReturned max_deliveries x found log (log', none) = ⊥
  AllReturned max_deliveries x found log (log', some (evaluation_failed y)) =
      Keeps log log' × (x ≡ y) × All (λ r. IsReturned max_deliveries x log' r.0) found
  AllReturned max_deliveries x found log (log', some (dead_letter_failed y)) = Unit
  AllReturned max_deliveries x found log (log', some (not_terminated y)) = Unit
  AllReturned max_deliveries x found log (log', some (ack_failed y)) = Unit
  AllReturned max_deliveries x found log (log', some (nak_failed y z)) = Unit

  -- A message that could not be read is buried for that reason; of any other P is said.
  abbrev pub IsSettled : Result String (Observation F) → Type 0 → Log F → Message → Type 0
  IsSettled (err reason) P log m = IsBuried log reason m
  IsSettled (ok o) P log m = P

  module _ ⦃fl : Float64 F⦄ (decoder : Decoder F) where
    -- The messages that have an observation, in their order.
    abbrev pub readings : List Message → List (Message × Observation F)
    readings [] = []
    readings (m ∷ ms) = elim (read_message decoder m) [
      | err x ↦ readings ms
      | ok o ↦ (m, o) ∷ readings ms
    ]

    abbrev pub AllSettled : (Message → Type 0) → Log F → List Message → Type 0
    AllSettled P log ms = All (λ m. IsSettled (read_message decoder m) (P m) log m) ms

  module _ (answer : Answers F) ⦃fl : Float64 F⦄ (decoder : Decoder F) where
    module _ (max_deliveries : ℤ) (x : String) where
      AllReturned-cons :
          (m : Message) (o : Observation F) (found : List (Message × Observation F))
          (log log₁ : Log F) (out : Log F × Option ConsumeError)
          → Keeps log log₁
          → IsReturned max_deliveries x log₁ m
          → AllReturned max_deliveries x found log₁ out
          → AllReturned max_deliveries x ((m, o) ∷ found) log out
      AllReturned-cons m o found log log₁ (log', none) k r h = h
      AllReturned-cons m o found log log₁ (log', some (evaluation_failed y)) k r (k', e, a) = (
        Keeps-trans log log₁ log' k k',
        e,
        (IsReturned-Keeps max_deliveries x log₁ log' m k' r, a),
      )
      AllReturned-cons m o found log log₁ (log', some (dead_letter_failed y)) k r h = h
      AllReturned-cons m o found log log₁ (log', some (not_terminated y)) k r h = h
      AllReturned-cons m o found log log₁ (log', some (ack_failed y)) k r h = h
      AllReturned-cons m o found log log₁ (log', some (nak_failed y z)) k r h = h

      pub retry_messages-AllReturned :
          (found : List (Message × Observation F)) (log : Log F)
          → AllReturned max_deliveries x found log
              (retry_messages answer decoder max_deliveries x found (log, none))
      unfolding retry_messages
      retry_messages-AllReturned [] log = (Keeps-refl log, refl, tt)
      retry_messages-AllReturned ((m, o) ∷ found) log =
          went (retry_message answer decoder max_deliveries x m log)
            (retry_message-Does answer decoder max_deliveries x m log)
            (retry_messages-AllReturned found)
        where
          went :
              (out : Log F × Option ConsumeError)
              → Does (λ l. IsReturned max_deliveries x l m) log out
              → ((l : Log F)
                  → AllReturned max_deliveries x found l
                      (retry_messages answer decoder max_deliveries x found (l, none)))
              → AllReturned max_deliveries x
                  ((m, o) ∷ found)
                  log
                  (retry_messages answer decoder max_deliveries x found out)
          went (l, none) (k, r) go = AllReturned-cons m o found log l _ k r (go l)
          went (l, some (evaluation_failed y)) h go = elim h [ ]
          went (l, some (dead_letter_failed y)) h go = tt
          went (l, some (not_terminated y)) h go = tt
          went (l, some (ack_failed y)) h go = tt
          went (l, some (nak_failed y z)) h go = tt

    -- The first loop has the readings, and has buried the other messages.
    abbrev pub AllRead :
        List (Message × Observation F)
        → List Message
        → Log F
        → Log F × Result ConsumeError (List (Message × Observation F))
        → Type 0
    AllRead rs ms log (log', err (evaluation_failed x)) = ⊥
    AllRead rs ms log (log', err (dead_letter_failed x)) = Unit
    AllRead rs ms log (log', err (not_terminated x)) = Unit
    AllRead rs ms log (log', err (ack_failed x)) = Unit
    AllRead rs ms log (log', err (nak_failed x y)) = Unit
    AllRead rs ms log (log', ok found) =
        Keeps log log' × (found ≡ rs) × AllSettled decoder (λ m. Unit) log' ms

    -- The same of the messages after one whose reading is given.
    abbrev AllReadAfter :
        Message
        → Result String (Observation F)
        → List (Message × Observation F)
        → List Message
        → Log F
        → Log F × Result ConsumeError (List (Message × Observation F))
        → Type 0
    AllReadAfter m r rs ms log (log', err (evaluation_failed x)) = ⊥
    AllReadAfter m r rs ms log (log', err (dead_letter_failed x)) = Unit
    AllReadAfter m r rs ms log (log', err (not_terminated x)) = Unit
    AllReadAfter m r rs ms log (log', err (ack_failed x)) = Unit
    AllReadAfter m r rs ms log (log', err (nak_failed x y)) = Unit
    AllReadAfter m r rs ms log (log', ok found) =
        Keeps log log'
        × (found ≡ rs)
        × (IsSettled r Unit log' m × AllSettled decoder (λ n. Unit) log' ms)

    AllReadAfter-AllRead :
        (m : Message) (rs : List (Message × Observation F)) (ms : List Message) (log : Log F)
        (out : Log F × Result ConsumeError (List (Message × Observation F)))
        → AllReadAfter m (read_message decoder m) rs ms log out
        → AllRead rs (m ∷ ms) log out
    AllReadAfter-AllRead m rs ms log (log', err (evaluation_failed x)) h = h
    AllReadAfter-AllRead m rs ms log (log', err (dead_letter_failed x)) h = h
    AllReadAfter-AllRead m rs ms log (log', err (not_terminated x)) h = h
    AllReadAfter-AllRead m rs ms log (log', err (ack_failed x)) h = h
    AllReadAfter-AllRead m rs ms log (log', err (nak_failed x y)) h = h
    AllReadAfter-AllRead m rs ms log (log', ok found) h = h

    AllReadAfter-buried :
        (rs : List (Message × Observation F)) (m : Message) (reason : String) (ms : List Message)
        (log log₁ : Log F) (out : Log F × Result ConsumeError (List (Message × Observation F)))
        → Keeps log log₁
        → IsBuried log₁ reason m
        → AllRead rs ms log₁ out
        → AllReadAfter m (err reason) rs ms log out
    AllReadAfter-buried rs m reason ms log log₁ (log', err (evaluation_failed y)) k t h = h
    AllReadAfter-buried rs m reason ms log log₁ (log', err (dead_letter_failed y)) k t h = h
    AllReadAfter-buried rs m reason ms log log₁ (log', err (not_terminated y)) k t h = h
    AllReadAfter-buried rs m reason ms log log₁ (log', err (ack_failed y)) k t h = h
    AllReadAfter-buried rs m reason ms log log₁ (log', err (nak_failed y z)) k t h = h
    AllReadAfter-buried rs m reason ms log log₁ (log', ok found) k t (k', f, a) =
        (Keeps-trans log log₁ log' k k', f, (k'.1 reason m t, a))

    AllReadAfter-read :
        (rs : List (Message × Observation F)) (m : Message) (ms : List Message) (o : Observation F)
        (log log' : Log F) (r : Result ConsumeError (List (Message × Observation F)))
        → AllRead rs ms log (log', r)
        → AllReadAfter m
            (ok o)
            ((m, o) ∷ rs)
            ms
            log
            (log', elim r [ err x ↦ err x | ok found ↦ ok ((m, o) ∷ found) ])
    AllReadAfter-read rs m ms o log log' (err (evaluation_failed y)) h = h
    AllReadAfter-read rs m ms o log log' (err (dead_letter_failed y)) h = h
    AllReadAfter-read rs m ms o log log' (err (not_terminated y)) h = h
    AllReadAfter-read rs m ms o log log' (err (ack_failed y)) h = h
    AllReadAfter-read rs m ms o log log' (err (nak_failed y z)) h = h
    AllReadAfter-read rs m ms o log log' (ok found) (k, f, a) =
        (k, ap (λ rest. (m, o) ∷ rest) f, (tt, a))

    pub read_messages-AllRead :
        (ms : List Message) (log : Log F)
        → AllRead (readings decoder ms) ms log (read_messages answer decoder ms log)
    unfolding read_messages
    read_messages-AllRead [] log = (Keeps-refl log, refl, tt)
    read_messages-AllRead (m ∷ ms) log =
        AllReadAfter-AllRead m (readings decoder (m ∷ ms)) ms log _
          (read (read_message decoder m) (read_messages-AllRead ms))
      where
        buried :
            (x : String) (out : Log F × Option ConsumeError)
            → Does (λ l. IsBuried l x m) log out
            → ((l : Log F) → AllRead (readings decoder ms) ms l (read_messages answer decoder ms l))
            → AllReadAfter m (err x) (readings decoder ms) ms log (
                let (log', failed) = out in
                let rest = read_messages answer decoder ms log' in
                elim failed [ some y ↦ (log', err y) | none ↦ rest ])
        buried x (log', none) (k, t) go =
            AllReadAfter-buried (readings decoder ms) m x ms log log' _ k t (go log')
        buried x (log', some (evaluation_failed y)) h go = elim h [ ]
        buried x (log', some (dead_letter_failed y)) h go = tt
        buried x (log', some (not_terminated y)) h go = tt
        buried x (log', some (ack_failed y)) h go = tt
        buried x (log', some (nak_failed y z)) h go = tt

        read :
            (r : Result String (Observation F))
            → ((l : Log F) → AllRead (readings decoder ms) ms l (read_messages answer decoder ms l))
            → AllReadAfter m r
                (elim r [ err x ↦ readings decoder ms | ok o ↦ (m, o) ∷ readings decoder ms ])
                ms
                log
                (elim r [
                  | err reason ↦
                      let (log', failed) = dead_letter answer m reason log in
                      let rest = read_messages answer decoder ms log' in
                      elim failed [ some x ↦ (log', err x) | none ↦ rest ]
                  | ok o ↦
                      let (log', others) = read_messages answer decoder ms log in
                      (log', elim others [ err x ↦ err x | ok found ↦ ok ((m, o) ∷ found) ])
                ])
        read (err x) go = buried x (dead_letter answer m x log) (dead_letter-Does answer m x log) go
        read (ok o) go =
            let out = read_messages answer decoder ms log in
            AllReadAfter-read (readings decoder ms) m ms o log out.0 out.1 (go log)
