-- ===== src/Rules/Timeframe.antt =====
-- timeframeDuration of internal/rules/evaluator.go.
use alerts.Common.{
  ℕ, ◌*◌, String, ◌≡◌, refl, ◌&&◌, ◌||◌, Option, none, some, List, [], ◌∷◌, ltb, length, ◌==◌,
  nat_eq, if◌then◌else◌,
}
use alerts.Common.Int.{ℤ, pos, leb_ℤ, scale, wrap_64, second}
use alerts.Common.Text.{codes, atoi}

-- What comes before the last code point, and the last one (0 of an empty text).
split_last : List ℕ → List ℕ × ℕ
split_last [] = ([], 0)
split_last (c ∷ []) = ([], c)
split_last (c ∷ d ∷ cs) = let (front, last) = split_last (d ∷ cs) in (c ∷ front, last)

-- 24 * time.Hour, times 7 for a week
abbrev unit_of : ℕ → ℕ
unit_of last = if last == b'w' then 7 * (86400 * second) else 86400 * second

positive : Option ℤ → Option ℤ
positive none = none
positive (some n) = if leb_ℤ n (pos 0) then none else some n

-- time.Duration(quantity) * unit
times : ℕ → Option ℤ → Option ℤ
times unit none = none
times unit (some n) = some (wrap_64 (scale n unit))

-- `parse_duration` is time.ParseDuration, none where it returns an error.
module _ (parse_duration : String → Option ℤ) where
  unfoldable pub timeframe_duration : String → Option ℤ
  unfolding split_last positive times codes atoi scale wrap_64
  timeframe_duration value =
      let (front, last) = split_last (codes value) in
      if ltb 1 (length (codes value)) && (last == b'd' || last == b'w')
      then times (unit_of last) (positive (atoi front))
      else positive (parse_duration value)

two_weeks : timeframe_duration (λ _. none) "2w" ≡ some (pos 1209600000000000)
unfolding timeframe_duration
two_weeks = refl
