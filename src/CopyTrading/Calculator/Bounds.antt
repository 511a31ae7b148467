-- ===== src/CopyTrading/Calculator/Bounds.antt =====
-- What the quantities and prices of copied orders are bounded by
-- (apps/copy-trading/src/calculator/copy-ratio.calculator.ts and
-- apps/copy-trading/src/risk/risk-guard.service.ts).
use ether_trade.Prelude.{ℕ, ◌-◌, ◌*◌, ◌≤◌, ◌≡◌, arith, min}
use ether_trade.CopyTrading.Calculator.{
  BigNumbers, Rounds, ratio_scale, calculate_sell_quantity, calculate_sub_position,
}

module _ {b : BigNumbers} (rounds : Rounds b) where
  -- What is rounded down from at most n units of the eighth decimal has at most n of them.
  down_within : (n x : ℕ) → x ≤ n * ratio_scale → b.to_fixed_down ratio_scale x ≤ n
  down_within n x h = let below = rounds.down_le ratio_scale x (omega arith) in omega arith

  pub calculate_sell_quantity-le :
      (quantity base position : ℕ) → calculate_sell_quantity b quantity base position ≤ position
  unfolding calculate_sell_quantity
  calculate_sell_quantity-le quantity base position = ground (
    arith,
    down_within position (min (position * b.divided_by quantity base) (position * ratio_scale))
        (omega arith),
  )

  pub calculate_sub_position_lem :
      (bought sold : ℕ) → calculate_sub_position b bought sold ≡ bought - sold
  unfolding calculate_sub_position
  calculate_sub_position_lem bought sold =
      let low = rounds.down_le 1 (bought - sold) (omega arith) in
      let near = rounds.down_near 1 (bought - sold) (omega arith) in ground arith
