-- ===== src/Engine/Partitions/Keys.antt =====
-- Keys and partitions in internal/runtime/engine.go: what a key tells of the series that it was made of.
use Prim.Native.Char.{Char, code}
use text.Mathlib.TextLemmas.{nil-append, cons-append}
use alerts.Common.{
  ℕ, ◌≡◌, refl, ap, ◌∙◌, String, ◌<>◌, Bool, true, false, some, arith, ◌==◌, nat_eq, if◌then◌else◌,
}
use alerts.Model.{Series, series_key}
use alerts.Store.{definition_state_key}
use alerts.Engine.Partitions.{
  cut, split_key, partition_of, partition_for_key, definition_series_key,
}

-- No character of the text has the code.
unfoldable pub lacks : ℕ → String → Bool
lacks sep String.[] = true
lacks sep (String.◌∷◌ c s) = let rest = lacks sep s in if code c == sep then false else rest

cut_here :
    (sep : ℕ) (c : Char) (t : String)
    → (code c == sep) ≡ true
    → cut sep (String.◌∷◌ c t) ≡ some (String.[], t)
unfolding cut
cut_here sep c t h = rw (h, cut)

cut_later :
    (sep : ℕ) (d : Char) (s t u : String)
    → (code d == sep) ≡ false
    → cut sep s ≡ some (t, u)
    → cut sep (String.◌∷◌ d s) ≡ some (String.◌∷◌ d t, u)
unfolding cut
cut_later sep d s t u h k = rw (h, k, cut)

lacks_head :
    (sep : ℕ) (d : Char) (s : String) → lacks sep (String.◌∷◌ d s) ≡ true → (code d == sep) ≡ false
unfolding lacks
lacks_head sep d s h = ground arith

lacks_tail :
    (sep : ℕ) (d : Char) (s : String) → lacks sep (String.◌∷◌ d s) ≡ true → lacks sep s ≡ true
unfolding lacks
lacks_tail sep d s h = ground arith

-- strings.Cut of a text, a separator and another text.
cut-append :
    (sep : ℕ) (c : Char) (s t : String)
    → (code c == sep) ≡ true
    → lacks sep s ≡ true
    → cut sep (s <> String.◌∷◌ c t) ≡ some (s, t)
cut-append sep c String.[] t h k = ap (cut sep) (nil-append (String.◌∷◌ c t)) ∙ cut_here sep c t h
cut-append sep c (String.◌∷◌ d s) t h k =
    ap (cut sep) (cons-append d s (String.◌∷◌ c t))
    ∙ cut_later sep d (s <> String.◌∷◌ c t) s t (lacks_head sep d s k)
        (cut-append sep c s t h (lacks_tail sep d s k))

-- A separator of one character in front of a text.
one_char : (c : Char) (t : String) → String.◌∷◌ c String.[] <> t ≡ String.◌∷◌ c t
one_char c t = cons-append c String.[] t ∙ ap (String.◌∷◌ c) (nil-append t)

-- A definition's key gives back the series key that it was made of, for an id without '|'.
pub definition_series_key-definition_state_key :
    (id key : String)
    → lacks b'|' id ≡ true
    → definition_series_key (definition_state_key id key) ≡ key
unfolding definition_series_key definition_state_key
definition_series_key-definition_state_key id key h =
    rw (
      ap (λ t. id <> t) (one_char "|" key),
      cut-append b'|' "|" id key refl h,
      definition_series_key,
    )

-- The parts of a series key are those of the series, for a dataset and a symbol without '/'.
split_key-series_key :
    (s : Series)
    → lacks b'/' s.dataset ≡ true
    → lacks b'/' s.symbol ≡ true
    → split_key (series_key s) ≡ some s
unfolding split_key series_key
split_key-series_key s h k = rw (
  ap (λ t. s.dataset <> t) (one_char "/" (s.symbol <> "/" <> s.timeframe)),
  cut-append b'/' "/" s.dataset (s.symbol <> "/" <> s.timeframe) refl h,
  ap (λ t. s.symbol <> t) (one_char "/" s.timeframe),
  cut-append b'/' "/" s.symbol s.timeframe refl k,
)

-- The state of a series that is loaded by its key is put into the partition that evaluates the series, for a
-- dataset and a symbol without '/'.
pub partition_for_key-series_key :
    (count : ℕ) (s : Series)
    → lacks b'/' s.dataset ≡ true
    → lacks b'/' s.symbol ≡ true
    → partition_for_key count (series_key s) ≡ partition_of count s
unfolding partition_for_key
partition_for_key-series_key count s h k = rw (split_key-series_key s h k, partition_for_key)
