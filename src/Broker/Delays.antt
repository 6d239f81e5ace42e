-- ===== src/Broker/Delays.antt =====
-- The delays between deliveries.
use native.Mathlib.Nat.{one-le-pow, pow-le-pow_right}
use alerts.Common.{ℕ, ◌-◌, ◌*◌, ◌^◌, ◌%◌, ◌≤◌, ◌≡◌, true, arith, ltb, ◌==◌, nat_eq, if◌then◌else◌}
use alerts.Common.Int.{pos, ltb_ℤ, leb_ℤ, wrap_64, scale, second}
use alerts.Broker.{retry_delay}

exponent : ℕ → ℕ
exponent n = let counted = if n == 0 then 1 else n in if ltb 9 (counted - 1) then 9 else counted - 1

exponent-le : (m n : ℕ) → m ≤ n → (exponent m ≤ exponent n) × (exponent n ≤ 9)
unfolding exponent
exponent-le m n h = (ground arith, ground arith)

-- The delay after a shift that gives k.
capped : ℕ → ℕ
capped k = if ltb 300 k then 300 * second else k * second

capped_lem :
    (k : ℕ)
    → k ≤ 512
    → (let delay = wrap_64 (scale (wrap_64 (pos (k % 2 ^ 64))) second) in
        if ltb_ℤ (pos (300 * second)) delay then pos (300 * second) else delay)
      ≡ pos (capped k)
unfolding wrap_64 scale capped
capped_lem k h = ground arith

-- With an exponent of 9 at most, neither the shift nor the product wraps around.
retry_delay_lem : (n : ℕ) → retry_delay n ≡ pos (capped (2 ^ exponent n))
unfolding retry_delay exponent
retry_delay_lem n =
    let (low, high) = exponent-le n n (ground arith) in
    let small : 2 ^ exponent n ≤ 2 ^ 9 = pow-le-pow_right {n = 2} (ground arith) high in
    capped_lem (2 ^ exponent n) small

capped_bounds :
    (j k : ℕ)
    → 1 ≤ j
    → j ≤ k
    → (leb_ℤ (pos second) (pos (capped j)) ≡ true)
      × (leb_ℤ (pos (capped j)) (pos (capped k)) ≡ true)
      × (leb_ℤ (pos (capped k)) (pos (300 * second)) ≡ true)
unfolding capped
capped_bounds j k h q = (ground arith, ground arith, ground arith)

-- In the arithmetic of uint64 and time.Duration, which wraps around, a message waits at least a second and at most
-- five minutes before it is delivered again, and never less than after an earlier delivery.
pub retry_delay_bounds :
    (m n : ℕ)
    → m ≤ n
    → (leb_ℤ (pos second) (retry_delay m) ≡ true)
      × (leb_ℤ (retry_delay m) (retry_delay n) ≡ true)
      × (leb_ℤ (retry_delay n) (pos (300 * second)) ≡ true)
retry_delay_bounds m n h =
    let (low, high) = exponent-le m n h in
    let one : 1 ≤ 2 ^ exponent m = one-le-pow (exponent m) 2 (ground arith) in
    let grows : 2 ^ exponent m ≤ 2 ^ exponent n = pow-le-pow_right {n = 2} (ground arith) low in
    rw (retry_delay_lem m, retry_delay_lem n)
      (capped_bounds (2 ^ exponent m) (2 ^ exponent n) one grows)
