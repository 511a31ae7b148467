-- ===== src/CopyTrading/Sample.antt =====
-- Rounding with which the theorems on apps/copy-trading/src are applied.
use ether_trade.Prelude.{ℕ, ◌+◌, ◌-◌, ◌*◌, ◌/◌, ◌≤◌, ◌<◌, arith}
use native.Mathlib.Nat.{div-mul-le_self, lt-div-mul-add}
use ether_trade.CopyTrading.Calculator.{BigNumbers, Rounds, ratio_scale}

abbrev pub exact : BigNumbers
exact = record {
  divided_by = λ x y. (2 * (x * ratio_scale) + y) / (2 * y);
  to_fixed_down = λ d x. x / d;
  to_fixed_up = λ d x. (x + d - 1) / d;
}

exact-divided_le : (x y : ℕ) → 0 < y → 2 * (exact.divided_by x y * y) ≤ 2 * (x * ratio_scale) + y
exact-divided_le x y pos =
    let low = div-mul-le_self (2 * (x * ratio_scale) + y) (2 * y) in grind arith

exact-divided_near : (x y : ℕ) → 0 < y → 2 * (x * ratio_scale) < 2 * (exact.divided_by x y * y) + y
exact-divided_near x y pos =
    let wide : 0 < 2 * y = omega arith in
    let near = lt-div-mul-add {a = 2 * (x * ratio_scale) + y} wide in grind arith

exact-down_le : (d x : ℕ) → 0 < d → x / d * d ≤ x
exact-down_le d x pos = div-mul-le_self x d

exact-down_near : (d x : ℕ) → 0 < d → x < x / d * d + d
exact-down_near d x pos = lt-div-mul-add pos

exact-up_ge : (d x : ℕ) → 0 < d → x ≤ (x + d - 1) / d * d
exact-up_ge d x pos = let near = lt-div-mul-add {a = x + d - 1} pos in omega (arith, near)

exact-up_near : (d x : ℕ) → 0 < d → (x + d - 1) / d * d < x + d
exact-up_near d x pos = let low = div-mul-le_self (x + d - 1) d in omega (arith, low)

pub exact-Rounds : Rounds exact
exact-Rounds = record {
  divided_le = exact-divided_le;
  divided_near = exact-divided_near;
  down_le = exact-down_le;
  down_near = exact-down_near;
  up_ge = exact-up_ge;
  up_near = exact-up_near;
}
