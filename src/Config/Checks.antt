-- ===== src/Config/Checks.antt =====
-- The checks of Load, one at a time.
use mathlib.Core.Path.{subst}
use alerts.Common.{
  ℕ, ◌*◌, ◌^◌, ◌≤◌, ◌<◌, String, Bool, true, false, not, ◌||◌, Option, none, some, Result, ok, err,
  ◌≡◌, refl, if◌then◌else◌, arith, string_eq,
}
use alerts.Common.Int.{ℤ, pos, negsuc, pos_part, ltb_ℤ, wrap_64, scale}
use alerts.Common.Text.{codes, itoa, atoi}
use alerts.Config.{
  Config, System, ConfigError, not_integer, not_duration, env, ◌>>=◌, ◌>>◌, refuse_if, integer,
  duration,
}

-- A number of a range of natural numbers
abbrev pub IsBetween : ℕ → ℕ → ℤ → Type 0
IsBetween low high x = (x ≡ pos (pos_part x)) × (low ≤ pos_part x) × (pos_part x ≤ high)

abbrev pub IsPositive : ℤ → Type 0
IsPositive x = (x ≡ pos (pos_part x)) × (1 ≤ pos_part x)

not_between :
    (low high n : ℕ) → (ltb_ℤ (negsuc n) (pos low) || ltb_ℤ (pos high) (negsuc n)) ≡ false → ⊥
not_between low high n h = ground arith

pub not_positive : (n : ℕ) → not (ltb_ℤ (pos 0) (negsuc n)) ≡ false → ⊥
not_positive n h = ground arith

between :
    (low high : ℕ) (x : ℤ)
    → (ltb_ℤ x (pos low) || ltb_ℤ (pos high) x) ≡ false
    → IsBetween low high x
between low high (pos n) h = (refl, ground arith, ground arith)
between low high (negsuc n) h = elim (not_between low high n h) [ ]

positive : (x : ℤ) → not (ltb_ℤ (pos 0) x) ≡ false → IsPositive x
positive (pos n) h = (refl, ground arith)
positive (negsuc n) h = elim (not_positive n h) [ ]

ok-injective : {E A : Type 0} {a b : A} → (let r : Result E A = ok a in r) ≡ ok b → a ≡ b
ok-injective h = cc

-- What holds of a configuration, if there is one.
unfoldable pub Ensures : (Config → Type 0) → Result ConfigError Config → Type 0
Ensures P (err x) = Unit
Ensures P (ok c) = P c

pub Ensures-ok : (P : Config → Type 0) (c : Config) → P c → Ensures P (ok c)
unfolding Ensures
Ensures-ok P c h = h

pub refuse_if-Ensures :
    (P : Config → Type 0) (bad : Bool) (x : ConfigError) (r : Result ConfigError Config)
    → (bad ≡ false → Ensures P r)
    → Ensures P (refuse_if bad x >> r)
unfolding refuse_if Ensures ◌>>=◌
refuse_if-Ensures P true x r h = tt
refuse_if-Ensures P false x r h = h refl

bind-Ensures :
    (P : Config → Type 0) (Q : ℤ → Type 0) (r : Result ConfigError ℤ)
    (f : ℤ → Result ConfigError Config)
    → ((x : ℤ) → r ≡ ok x → Q x)
    → ((x : ℤ) → Q x → Ensures P (f x))
    → Ensures P (r >>= f)
unfolding Ensures ◌>>=◌
bind-Ensures P Q (err x) f q h = tt
bind-Ensures P Q (ok a) f q h = h a (q a refl)

module _ (system : System) where
  integer-IsBetween :
      (key : String) (fallback : ℤ) (low high : ℕ) (x : ℤ)
      → integer system key fallback (pos low) (pos high) ≡ ok x
      → IsBetween low high x
  unfolding integer
  integer-IsBetween key fallback low high x h =
      read (atoi (codes (env system key (itoa fallback)))) h
    where
      kept :
          (value : ℤ) (bad : Bool) (e : ConfigError)
          → (bad ≡ false → IsBetween low high value)
          → (if bad then err e else ok value) ≡ ok x
          → IsBetween low high x
      kept value true e f k = cc
      kept value false e f k = subst (IsBetween low high) (ok-injective k) (f refl)

      read :
          (m : Option ℤ)
          → (elim m [
            | none ↦ err (not_integer key (pos low) (pos high))
            | some value ↦
                if ltb_ℤ value (pos low) || ltb_ℤ (pos high) value
                then err (not_integer key (pos low) (pos high))
                else ok value
          ])
            ≡ ok x
          → IsBetween low high x
      read none k = cc
      read (some value) k =
          kept value _ (not_integer key (pos low) (pos high)) (between low high value) k

  duration-IsPositive :
      (key : String) (fallback x : ℤ) → duration system key fallback ≡ ok x → IsPositive x
  unfolding duration
  duration-IsPositive key fallback x h =
      read (system.parse_duration (env system key (system.duration_text fallback))) h
    where
      kept :
          (value : ℤ) (bad : Bool)
          → (bad ≡ false → IsPositive value)
          → (if bad then err (not_duration key) else ok value) ≡ ok x
          → IsPositive x
      kept value true f k = cc
      kept value false f k = subst IsPositive (ok-injective k) (f refl)

      read :
          (m : Option ℤ)
          → (elim m [
            | none ↦ err (not_duration key)
            | some value ↦ if not (ltb_ℤ (pos 0) value) then err (not_duration key) else ok value
          ])
            ≡ ok x
          → IsPositive x
      read none k = cc
      read (some value) k = kept value _ (positive value) k

  pub integer-Ensures :
      (P : Config → Type 0) (key : String) (fallback : ℤ) (low high : ℕ)
      (f : ℤ → Result ConfigError Config)
      → ((x : ℤ) → IsBetween low high x → Ensures P (f x))
      → Ensures P (integer system key fallback (pos low) (pos high) >>= f)
  integer-Ensures P key fallback low high f h =
      bind-Ensures P (IsBetween low high) (integer system key fallback (pos low) (pos high)) f
        (integer-IsBetween key fallback low high) h

  pub duration-Ensures :
      (P : Config → Type 0) (key : String) (fallback : ℤ) (f : ℤ → Result ConfigError Config)
      → ((x : ℤ) → IsPositive x → Ensures P (f x))
      → Ensures P (duration system key fallback >>= f)
  duration-Ensures P key fallback f h =
      bind-Ensures P IsPositive (duration system key fallback) f (duration-IsPositive key fallback)
        h

pub double-wrap_64 : (n : ℕ) → n < 2 ^ 62 → wrap_64 (scale (pos n) 2) ≡ pos (n * 2)
unfolding wrap_64 scale
double-wrap_64 n h = ground arith

pub impossible : {n : ℕ} → IsPositive (negsuc n) → ⊥
impossible (e, h) = ground arith
