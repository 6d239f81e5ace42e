-- ===== src/Rules/Temporal/Streak.antt =====
-- The case candle_streak of evaluate, against the length of the run of candles that has just ended.
use alerts.Common.{
  ℕ, suc, ◌-◌, ◌≤◌, ◌≡◌, refl, ◌∙◌, String, ◌<>◌, true, false, some, List, [], ◌∷◌, ◌++◌, arith,
  length, drop, take_last, all, leb, ◌==◌, nat_eq, string_eq, if◌then◌else◌,
}
use native.Mathlib.Decide.{dec_le}
use alerts.Common.Int.{pos}
use alerts.Common.Text.{itoa}
use alerts.Model.{Float64, Observation, FeatureState, RuleFields}
use alerts.Rules.Results.{plain, hit}
use alerts.Rules.Facts.{candle_color_of}
use alerts.Rules.Temporal.{streak_of, streak_case}

-- How many colours at the end of the list are c.
unfoldable pub trailing : String → List String → ℕ
trailing c [] = 0
trailing c (x ∷ xs) =
    let n = trailing c xs in if n == length xs then (if x == c then suc n else n) else n

trailing-le : (c : String) (xs : List String) → trailing c xs ≤ length xs
unfolding trailing
trailing-le c [] = omega arith
trailing-le c (x ∷ xs) = ground (arith, trailing-le c xs)

all-eq_trailing :
    (c : String) (xs : List String) → all (λ x. x == c) xs ≡ (trailing c xs == length xs)
unfolding trailing
all-eq_trailing c [] = refl
all-eq_trailing c (x ∷ xs) = ground (arith, all-eq_trailing c xs, trailing-le c xs)

drop_skip :
    (n : ℕ) (x : String) (xs : List String)
    → n ≤ length xs
    → drop (suc (length xs) - n) (x ∷ xs) ≡ drop (length xs - n) xs
unfolding drop
drop_skip n x xs h = let e : suc (length xs) - n ≡ suc (length xs - n) = omega arith in rw e

-- The last n colours are all c exactly when the run of c at the end has n or more of them.
all-take_last :
    (c : String) (n : ℕ) (xs : List String)
    → n ≤ length xs
    → all (λ x. x == c) (take_last n xs) ≡ leb n (trailing c xs)
unfolding trailing drop
all-take_last c n [] h = ground arith
all-take_last c n (x ∷ xs) h = elim (dec_le n (length xs)) [
  | yes k ↦ rw (drop_skip n x xs k) (all-take_last c n xs k ∙ ground (arith, trailing-le c xs))
  | no k ↦
      let e : suc (length xs) - n ≡ 0 = omega arith in
      rw e (all-eq_trailing c (x ∷ xs) ∙ ground (arith, trailing-le c xs))
]

module _ {F : Type 0} ⦃fl : Float64 F⦄ where
  streak_of_lem :
      (d : String) (n : ℕ) (colors : List String)
      → streak_of {F = F} d (pos n) colors
        ≡ some (
            if leb n (trailing d colors)
            then hit (itoa (pos n) <> " consecutive " <> d <> " candles") []
            else plain false true)
  unfolding streak_of
  streak_of_lem d n colors = ground (arith, all-take_last d n colors, trailing-le d colors)

  -- A candle_streak rule with a count that is not negative matches exactly when the run of candles of its
  -- direction that ends with the current one has that many candles or more, and is always known.
  pub streak_case_lem :
      (f : RuleFields F) (n : ℕ) (o : Observation F) (s : FeatureState F)
      → f.count ≡ pos n
      → streak_case f o s
        ≡ some (
            if leb n (trailing f.direction (s.candle_colors ++ candle_color_of o.candle ∷ []))
            then hit (itoa (pos n) <> " consecutive " <> f.direction <> " candles") []
            else plain false true)
  unfolding streak_case
  streak_case_lem f n o s e = rw e (streak_of_lem f.direction n _)
