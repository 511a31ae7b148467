-- ===== src/CopyTrading/Calculator.antt =====
-- apps/copy-trading/src/calculator/copy-ratio.calculator.ts and the prices and lots of
-- apps/copy-trading/src/risk/risk-guard.service.ts. Division and `toFixed(8, mode)` are
-- bignumber.js's: parameters with their documented behaviour.
pub mod Bounds
use ether_trade.Prelude.{
  ℕ, ◌+◌, ◌-◌, ◌*◌, ◌/◌, ◌^◌, ◌≤◌, ◌<◌, Bool, ◌||◌, List, [], ◌∷◌, Text, text, text_eq, leb, ltb,
  if◌then◌else◌, min, max, arith,
}
use ether_trade.Orders.Types.{OrderSide, buy, sell}

-- A quotient has twenty decimals, the default.
abbrev pub ratio_scale : ℕ
ratio_scale = 100000000000000000000

-- `to_fixed_down d x` and `to_fixed_up d x` take x units of 10^-8 / d to units of 10^-8.
pub record BigNumbers : Type 0 where
  pub divided_by : ℕ → ℕ → ℕ
  pub to_fixed_down : ℕ → ℕ → ℕ
  pub to_fixed_up : ℕ → ℕ → ℕ

-- `ROUND_HALF_UP` for quotients, `ROUND_DOWN` and `ROUND_UP`.
pub record Rounds (b : BigNumbers) : Type 0 where
  pub divided_le : (x y : ℕ) → 0 < y → 2 * (b.divided_by x y * y) ≤ 2 * (x * ratio_scale) + y
  pub divided_near : (x y : ℕ) → 0 < y → 2 * (x * ratio_scale) < 2 * (b.divided_by x y * y) + y
  pub down_le : (d x : ℕ) → 0 < d → b.to_fixed_down d x * d ≤ x
  pub down_near : (d x : ℕ) → 0 < d → x < b.to_fixed_down d x * d + d
  pub up_ge : (d x : ℕ) → 0 < d → x ≤ b.to_fixed_up d x * d
  pub up_near : (d x : ℕ) → 0 < d → b.to_fixed_up d x * d < x + d

abbrev pub is_zero : ℕ → Bool
is_zero n = leb n 0

-- `calculateBuyQuantity`
unfoldable pub calculate_buy_quantity : BigNumbers → ℕ → ℕ → ℕ → ℕ
calculate_buy_quantity b master_quantity master_usdt follower_usdt =
    if is_zero master_usdt || is_zero follower_usdt || is_zero master_quantity
    then 0
    else b.to_fixed_down ratio_scale (master_quantity * b.divided_by follower_usdt master_usdt)

-- `calculateSellQuantity`: capped by the follower's position.
unfoldable pub calculate_sell_quantity : BigNumbers → ℕ → ℕ → ℕ → ℕ
calculate_sell_quantity b master_quantity master_base follower_position =
    if is_zero follower_position || is_zero master_base || is_zero master_quantity
    then 0
    else b.to_fixed_down ratio_scale (
        min (follower_position * b.divided_by master_quantity master_base)
          (follower_position * ratio_scale))

-- `calculateSubPosition`: nothing, if more was sold than bought.
unfoldable pub calculate_sub_position : BigNumbers → ℕ → ℕ → ℕ
calculate_sub_position b bought sold =
    if leb bought sold then 0 else b.to_fixed_down 1 (bought - sold)

-- `calculateProtectedPrice`, the slippage in hundredths of a percent. A multiplier below zero is zero
-- here, which the floor of one unit makes the same.
unfoldable pub calculate_protected_price : BigNumbers → ℕ → ℕ → OrderSide → ℕ
calculate_protected_price b price slippage buy = b.to_fixed_up 10000 (price * (10000 + slippage))
calculate_protected_price b price slippage sell =
    b.to_fixed_down 10000 (max (price * (10000 - slippage)) 10000)

-- `minLots`, with the last setting of a pair first.
abbrev pub MinLots : Type 0
MinLots = List (Text × ℕ)

abbrev pub min_lots : MinLots
min_lots = (text "BTC_USDT", 10000) ∷ (text "ETH_USDT", 100000) ∷ []

unfoldable pub min_lot : MinLots → Text → ℕ
min_lot [] pair = 10000
min_lot ((k, lot) ∷ rest) pair = if text_eq k pair then lot else min_lot rest pair

abbrev pub set_min_lot : Text → ℕ → MinLots → MinLots
set_min_lot pair lot lots = (pair, lot) ∷ lots

-- `checkMinLot(…).isDust`
unfoldable pub is_dust : MinLots → Text → ℕ → Bool
unfolding min_lot
is_dust lots pair quantity = ltb quantity (min_lot lots pair) || is_zero quantity
