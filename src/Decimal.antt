-- ===== src/Decimal.antt =====
-- Decimal amounts. A price, a quantity or a balance with eight decimals is the number of its units
-- of 10^-8; a product of two such has units of 10^-16, and `toFixed(8)` brings it back to eight
-- decimals. How it rounds is bignumber.js's: a parameter `to_fixed`, from units of 10^-16 to units
-- of 10^-8, with the documented behaviour of the rounding mode that the service has configured.
use ether_trade.Prelude.{ℕ, ◌+◌, ◌*◌, ◌/◌, ◌≤◌, ◌<◌, arith}

abbrev pub scale : ℕ
scale = 100000000

-- `ROUND_DOWN`, which the accounts service configures: the digits behind the eighth are dropped.
pub record RoundsDown (to_fixed : ℕ → ℕ) : Type 0 where
  pub down_le : (x : ℕ) → to_fixed x * scale ≤ x
  pub down_near : (x : ℕ) → x < to_fixed x * scale + scale

-- `ROUND_HALF_UP`, the default, which the orders service leaves in place.
pub record RoundsHalfUp (to_fixed : ℕ → ℕ) : Type 0 where
  pub half_le : (x : ℕ) → 2 * (to_fixed x * scale) ≤ 2 * x + scale
  pub half_near : (x : ℕ) → 2 * x < 2 * (to_fixed x * scale) + scale

-- Concrete roundings, for tests and witnesses.
abbrev pub round_down : ℕ → ℕ
round_down x = x / scale

abbrev pub round_half_up : ℕ → ℕ
round_half_up x = (x + 50000000) / scale

pub round_down-RoundsDown : RoundsDown round_down
round_down-RoundsDown = record { down_le = λ x. omega arith; down_near = λ x. omega arith }

pub round_half_up-RoundsHalfUp : RoundsHalfUp round_half_up
round_half_up-RoundsHalfUp = record { half_le = λ x. omega arith; half_near = λ x. omega arith }
