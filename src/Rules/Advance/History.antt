-- ===== src/Rules/Advance/History.antt =====
-- The bounded histories that Advance keeps.
use alerts.Common.{
  ℕ, zero, suc, ◌+◌, ◌-◌, ◌≤◌, ◌≡◌, refl, sym, ◌∙◌, String, List, [], ◌∷◌, ◌++◌, append-nil,
  append_assoc, arith, length, length-append, length-drop, drop, ◌==◌, nat_eq, string_eq,
  if◌then◌else◌, Bool-cases, inl, inr,
}
use native.Mathlib.Decide.{dec_lt}
use alerts.Model.{Float64, Candle, Observation, FeatureState}
use alerts.Rules.Facts.{candle_color_of}
use alerts.Rules.Advance.{max_candles, max_colors, keep_last, advance}

module _ {ℓ} {A : Type ℓ} where
  drop-nil : (n : ℕ) → drop {A = A} n [] ≡ []
  unfolding drop
  drop-nil zero = refl
  drop-nil (suc n) = refl

  drop-append : (k : ℕ) (xs ys : List A) → k ≤ length xs → drop k xs ++ ys ≡ drop k (xs ++ ys)
  unfolding drop
  drop-append zero xs ys h = refl
  drop-append (suc k) [] ys h = elim h [ ]
  drop-append (suc k) (x ∷ xs) ys h = drop-append k xs ys (omega arith)

  drop-drop : (a b : ℕ) (xs : List A) → drop a (drop b xs) ≡ drop (b + a) xs
  unfolding drop
  drop-drop a zero xs = let e : 0 + a ≡ a = omega arith in rw e
  drop-drop a (suc b) [] = rw (drop-nil a, drop-nil (suc b + a))
  drop-drop a (suc b) (x ∷ xs) =
      let e : suc b + a ≡ suc (b + a) = omega arith in rw e (drop-drop a b xs)

  keep_last_lem : (n : ℕ) (xs : List A) → keep_last n xs ≡ drop (length xs - n) xs
  unfolding keep_last drop
  keep_last_lem n xs = elim (dec_lt n (length xs)) [
    | yes h ↦ ground arith
    | no h ↦ let e : length xs - n ≡ 0 = omega arith in rw e (ground arith)
  ]

  pub length-keep_last-le : (n : ℕ) (xs : List A) → length (keep_last n xs) ≤ n
  length-keep_last-le n xs =
      rw (keep_last_lem n xs) (omega (arith, length-drop {ℓ} (length xs - n) xs))

  keep_last_short : (n : ℕ) (xs : List A) → length xs ≤ n → keep_last n xs ≡ xs
  unfolding keep_last
  keep_last_short n xs h = ground arith

  -- Cutting early loses nothing that a later cut would have kept.
  keep_last-append :
      (n : ℕ) (xs ys : List A) → keep_last n (keep_last n xs ++ ys) ≡ keep_last n (xs ++ ys)
  keep_last-append n xs ys =
      rw
        (
          keep_last_lem n xs,
          drop-append (length xs - n) xs ys (omega arith),
          keep_last_lem n (drop (length xs - n) (xs ++ ys)),
          keep_last_lem n (xs ++ ys),
          drop-drop,
          sums,
        )
        refl
    where
      sums : length xs - n + (length (drop (length xs - n) (xs ++ ys)) - n) ≡ length (xs ++ ys) - n
      sums = omega (arith, length-drop {ℓ} (length xs - n) (xs ++ ys), length-append {ℓ} xs ys)

module _ {F : Type 0} ⦃fl : Float64 F⦄ where
  -- The feature state after a sequence of observations.
  unfoldable pub advance_all : FeatureState F → List (Observation F) → FeatureState F
  advance_all s [] = s
  advance_all s (o ∷ os) = advance_all (advance s o) os

  unfoldable pub confirmed_candles : List (Observation F) → List (Candle F)
  confirmed_candles [] = []
  confirmed_candles (o ∷ os) =
      let rest = confirmed_candles os in if o.status == "confirmed" then o.candle ∷ rest else rest

  advance_candles :
      (s : FeatureState F) (o : Observation F)
      → (advance s o).candles ≡ (
          if o.status == "confirmed"
          then keep_last max_candles (s.candles ++ o.candle ∷ [])
          else s.candles)
  unfolding advance
  advance_candles s o = ground arith

  advance_colors :
      (s : FeatureState F) (o : Observation F)
      → (advance s o).candle_colors ≡ (
          if o.status == "confirmed"
          then keep_last max_colors (s.candle_colors ++ candle_color_of o.candle ∷ [])
          else s.candle_colors)
  unfolding advance
  advance_colors s o = ground arith

  candles_kept :
      (s : FeatureState F) (os : List (Observation F))
      → length s.candles ≤ max_candles
      → (advance_all s os).candles ≡ keep_last max_candles (s.candles ++ confirmed_candles os)
  unfolding advance_all confirmed_candles
  candles_kept s [] h = rw append-nil (sym (keep_last_short max_candles s.candles h))
  candles_kept s (o ∷ os) h = elim (Bool-cases (o.status == "confirmed")) [
    | inl e ↦
        let step : (advance s o).candles ≡ keep_last max_candles (s.candles ++ o.candle ∷ []) =
          advance_candles s o ∙ rw e in
        candles_kept (advance s o) os (rw step (length-keep_last-le max_candles _))
        ∙ rw (step, keep_last-append, e, append_assoc)
    | inr e ↦
        let step : (advance s o).candles ≡ s.candles = advance_candles s o ∙ rw e in
        candles_kept (advance s o) os (rw step h) ∙ rw (step, e)
  ]

  -- From a state with at most 500 candles, after any sequence of observations the history is what is left of the
  -- state's candles and then the confirmed candles of the sequence, in order, once all but 500 of them are dropped
  -- from the front: provisional ones leave no trace.
  pub candles-advance_all :
      (s : FeatureState F) (os : List (Observation F))
      → length s.candles ≤ 500
      → (let all = s.candles ++ confirmed_candles os in
          (advance_all s os).candles ≡ drop (length all - 500) all)
  candles-advance_all s os h =
      candles_kept s os h ∙ keep_last_lem max_candles (s.candles ++ confirmed_candles os)

  abbrev pub color_all : List (Candle F) → List String
  color_all [] = []
  color_all (c ∷ cs) = candle_color_of c ∷ color_all cs

  colors_kept :
      (s : FeatureState F) (os : List (Observation F))
      → length s.candle_colors ≤ max_colors
      → (advance_all s os).candle_colors
        ≡ keep_last max_colors (s.candle_colors ++ color_all (confirmed_candles os))
  unfolding advance_all confirmed_candles
  colors_kept s [] h = rw append-nil (sym (keep_last_short max_colors s.candle_colors h))
  colors_kept s (o ∷ os) h = elim (Bool-cases (o.status == "confirmed")) [
    | inl e ↦
        let step : (advance s o).candle_colors
            ≡ keep_last max_colors (s.candle_colors ++ candle_color_of o.candle ∷ []) =
          advance_colors s o ∙ rw e in
        colors_kept (advance s o) os (rw step (length-keep_last-le max_colors _))
        ∙ rw (step, keep_last-append, e, append_assoc)
    | inr e ↦
        let step : (advance s o).candle_colors ≡ s.candle_colors = advance_colors s o ∙ rw e in
        colors_kept (advance s o) os (rw step h) ∙ rw (step, e)
  ]

  -- From a state with at most 100 colours, after any sequence of observations the history of colours is what is left
  -- of the state's colours and then those of the confirmed candles of the sequence, in order, once all but 100 of
  -- them are dropped from the front.
  pub colors-advance_all :
      (s : FeatureState F) (os : List (Observation F))
      → length s.candle_colors ≤ 100
      → (let all = s.candle_colors ++ color_all (confirmed_candles os) in
          (advance_all s os).candle_colors ≡ drop (length all - 100) all)
  colors-advance_all s os h =
      colors_kept s os h
      ∙ keep_last_lem max_colors (s.candle_colors ++ color_all (confirmed_candles os))
