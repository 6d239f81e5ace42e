-- ===== src/Broker/Settling.antt =====
-- What a call for one message leaves in the log.
use alerts.Common.{
  ◌*◌, String, Bool, true, false, Option, none, some, [], ◌∷◌, ◌<>◌, ◌⊎◌, inl, inr, ◌≡◌, refl,
  if◌then◌else◌,
}
use alerts.Common.Int.{ℤ, pos, second}
use alerts.Model.{Float64}
use alerts.Broker.{
  Message, Call, publish, terminate, nak, Log, Answers, ConsumeError, dead_letter_failed,
  not_terminated, ack_failed, evaluation_failed, nak_failed, Decoder, dead_message, dead_letter,
  is_exhausted, deliveries_of, retry_delay, retry_message,
}

module _ {F : Type 0} where
  abbrev pub Called : Call F → Log F → Type 0
  Called c [] = ⊥
  Called c (d ∷ log) = (d ≡ c) ⊎ Called c log

  -- The message was terminated, and its dead letter had been published with the reason before.
  abbrev pub IsBuried : Log F → String → Message → Type 0
  IsBuried [] reason m = ⊥
  IsBuried (d ∷ log) reason m =
      ((d ≡ terminate m) × Called (publish (dead_message m reason)) log) ⊎ IsBuried log reason m

  -- A log that has the calls and the buried messages of another.
  abbrev pub Keeps : Log F → Log F → Type 0
  Keeps log log' =
      ((c : Call F) → Called c log → Called c log')
      × ((reason : String) (m : Message) → IsBuried log reason m → IsBuried log' reason m)

  pub Keeps-refl : (log : Log F) → Keeps log log
  Keeps-refl log = ((λ c i. i), (λ reason m i. i))

  pub Keeps-trans : (log log₁ log' : Log F) → Keeps log log₁ → Keeps log₁ log' → Keeps log log'
  Keeps-trans log log₁ log' (k, l) (k', l') =
      ((λ c i. k' c (k c i)), (λ reason m i. l' reason m (l reason m i)))

  pub Keeps-cons : (c : Call F) (log : Log F) → Keeps log (c ∷ log)
  Keeps-cons c log = ((λ d i. inr i), (λ reason m i. inr i))

  -- A message that has been sent often enough is buried; any other is sent again after the delay of its count.
  abbrev pub IsReturnedBy : Bool → String → Log F → Message → Type 0
  IsReturnedBy true x log m = IsBuried log ("evaluation failed after retries: " <> x) m
  IsReturnedBy false x log m = Called (nak m (retry_delay (deliveries_of m))) log

  abbrev pub IsReturned : ℤ → String → Log F → Message → Type 0
  IsReturned max_deliveries x log m = IsReturnedBy (is_exhausted max_deliveries m) x log m

  pub IsReturned-Keeps :
      (max_deliveries : ℤ) (x : String) (log log' : Log F) (m : Message)
      → Keeps log log'
      → IsReturned max_deliveries x log m
      → IsReturned max_deliveries x log' m
  IsReturned-Keeps max_deliveries x log log' m (k, l) = went (is_exhausted max_deliveries m)
    where
      went : (b : Bool) → IsReturnedBy b x log m → IsReturnedBy b x log' m
      went true i = l _ m i
      went false i = k _ i

  -- A call for one message that ends without an error has done P to the log; none fails for the evaluation.
  abbrev pub Does : (Log F → Type 0) → Log F → Log F × Option ConsumeError → Type 0
  Does P log (log', none) = Keeps log log' × P log'
  Does P log (log', some (evaluation_failed x)) = ⊥
  Does P log (log', some (dead_letter_failed x)) = Unit
  Does P log (log', some (not_terminated x)) = Unit
  Does P log (log', some (ack_failed x)) = Unit
  Does P log (log', some (nak_failed x y)) = Unit

  module _ (answer : Answers F) where
    pub dead_letter-Does :
        (m : Message) (reason : String) (log : Log F)
        → Does (λ l. IsBuried l reason m) log (dead_letter answer m reason log)
    unfolding dead_letter
    dead_letter-Does m reason log = published (answer (publish (dead_message m reason) ∷ log))
      where
        p : Log F
        p = publish (dead_message m reason) ∷ log

        Buries : Log F × Option ConsumeError → Type 0
        Buries out = Does (λ l. IsBuried l reason m) log out

        terminated :
            (r : Option String)
            → Buries (terminate m ∷ p, elim r [ some x ↦ some (not_terminated x) | none ↦ none ])
        terminated (some x) = tt
        terminated none = (
          Keeps-trans log p (terminate m ∷ p) (Keeps-cons _ log) (Keeps-cons _ p),
          inl (refl, inl refl),
        )

        published :
            (r : Option String)
            → Buries (elim r [
              | some x ↦ (nak m (pos (5 * second)) ∷ p, some (dead_letter_failed x))
              | none ↦ (
                terminate m ∷ p,
                elim (answer (terminate m ∷ p)) [ some x ↦ some (not_terminated x) | none ↦ none ],
              )
            ])
        published (some x) = tt
        published none = terminated (answer (terminate m ∷ p))

    module _ ⦃fl : Float64 F⦄ (decoder : Decoder F) where
      pub retry_message-Does :
          (max_deliveries : ℤ) (x : String) (m : Message) (log : Log F)
          → Does
              (λ l. IsReturned max_deliveries x l m)
              log
              (retry_message answer decoder max_deliveries x m log)
      unfolding retry_message
      retry_message-Does max_deliveries x m log = decided (is_exhausted max_deliveries m)
        where
          again : Log F
          again = nak m (retry_delay (deliveries_of m)) ∷ log

          nacked :
              (r : Option String)
              → Does
                  (λ l. IsReturnedBy false x l m)
                  log
                  (again, elim r [ some y ↦ some (nak_failed x y) | none ↦ none ])
          nacked (some y) = tt
          nacked none = (Keeps-cons _ log, inl refl)

          decided :
              (b : Bool)
              → Does
                  (λ l. IsReturnedBy b x l m)
                  log
                  (if b
                    then dead_letter answer m ("evaluation failed after retries: " <> x) log
                    else (
                      again,
                      elim (answer again) [ some y ↦ some (nak_failed x y) | none ↦ none ],
                    ))
          decided true = dead_letter-Does m ("evaluation failed after retries: " <> x) log
          decided false = nacked (answer again)
