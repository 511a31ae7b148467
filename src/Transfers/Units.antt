-- ===== src/Transfers/Units.antt =====
-- apps/transfers/src/common/utils/unit-converter.ts. Division and `toFixed` are bignumber.js's, which
-- the file configures to eight decimals and `ROUND_DOWN`: parameters with that behaviour.
use ether_trade.Prelude.{ℕ, ◌+◌, ◌*◌, ◌%◌, ◌^◌, ◌≤◌, ◌<◌, ◌≡◌, Bool, leb, arith}
use ether_trade.Decimal.{scale}

-- `divided_by x y` is the quotient of two integers in units of 10^-8; `to_fixed_0 x` takes x units of
-- 10^-8 to an integer.
pub record Numbers : Type 0 where
  pub divided_by : ℕ → ℕ → ℕ
  pub to_fixed_0 : ℕ → ℕ

pub record Truncates (n : Numbers) : Type 0 where
  pub divided_le : (x y : ℕ) → 0 < y → n.divided_by x y * y ≤ x * scale
  pub divided_near : (x y : ℕ) → 0 < y → x * scale < n.divided_by x y * y + y
  pub fixed_le : (x : ℕ) → n.to_fixed_0 x * scale ≤ x
  pub fixed_near : (x : ℕ) → x < n.to_fixed_0 x * scale + scale

unfoldable pub scale_evm_amount_to_platform : Numbers → ℕ → ℕ → ℕ
scale_evm_amount_to_platform n evm_amount decimals = n.divided_by evm_amount (10 ^ decimals)

abbrev pub is_above_min_deposit_threshold : ℕ → Bool
is_above_min_deposit_threshold amount = leb 1 amount

unfoldable pub scale_platform_amount_to_evm : Numbers → ℕ → ℕ → ℕ
scale_platform_amount_to_evm n amount decimals = n.to_fixed_0 (amount * 10 ^ decimals)

abbrev pub native_eth_decimals : ℕ
native_eth_decimals = 18

abbrev pub usdt_decimals : ℕ
usdt_decimals = 6

module _ {n : Numbers} (exact : Truncates n) where
  eth_round_trip :
      (amount : ℕ)
      → scale_evm_amount_to_platform n
          (scale_platform_amount_to_evm n amount native_eth_decimals)
          native_eth_decimals
        ≡ amount
  unfolding scale_evm_amount_to_platform scale_platform_amount_to_evm
  eth_round_trip amount =
      let low = exact.fixed_le (amount * 1000000000000000000) in
      let near = exact.fixed_near (amount * 1000000000000000000) in
      let wei = n.to_fixed_0 (amount * 1000000000000000000) in
      let below = exact.divided_le wei 1000000000000000000 (omega arith) in
      let above = exact.divided_near wei 1000000000000000000 (omega arith) in
      omega (arith, low, near, below, above)

  usdt_round_trip :
      (amount : ℕ)
      → scale_evm_amount_to_platform n
            (scale_platform_amount_to_evm n amount usdt_decimals)
            usdt_decimals
          + amount % 100
        ≡ amount
  unfolding scale_evm_amount_to_platform scale_platform_amount_to_evm
  usdt_round_trip amount =
      let low = exact.fixed_le (amount * 1000000) in
      let near = exact.fixed_near (amount * 1000000) in
      let units = n.to_fixed_0 (amount * 1000000) in
      let below = exact.divided_le units 1000000 (omega arith) in
      let above = exact.divided_near units 1000000 (omega arith) in
      omega (arith, low, near, below, above)

  -- An amount that is paid out and read back is the same in ether, which has more decimals than the
  -- platform; in a token of six decimals it loses the last two of its eight. bignumber.js truncates.
  pub decimals_round_trip :
      (amount : ℕ)
      → (scale_evm_amount_to_platform n
            (scale_platform_amount_to_evm n amount native_eth_decimals)
            native_eth_decimals
          ≡ amount)
        × (scale_evm_amount_to_platform n
                (scale_platform_amount_to_evm n amount usdt_decimals)
                usdt_decimals
              + amount % 100
            ≡ amount)
  decimals_round_trip amount = (eth_round_trip amount, usdt_round_trip amount)
