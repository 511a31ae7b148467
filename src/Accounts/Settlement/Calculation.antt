-- ===== src/Accounts/Settlement/Calculation.antt =====
-- apps/accounts/src/consumers/utils/trades-settlement.util.ts: the amounts of a settlement and its
-- ledger entries.
use ether_trade.Prelude.{
  ℕ, zero, suc, ◌+◌, ◌-◌, ◌*◌, List, [], ◌∷◌, Text, split_from, ltb, if◌then◌else◌,
}
use ether_trade.Prelude.Int.{ℤ, pos, ◌-ℤ◌}
use ether_trade.Accounts.Types.{LedgerType, trade_settlement}

-- `TradeExecutedEvent`, as far as the settlement reads it.
pub record Trade : Type 0 where
  pub trade_id : Text
  pub buyer_user_id : ℕ
  pub seller_user_id : ℕ
  pub symbol : Text
  pub price : ℕ
  pub quantity : ℕ
  pub buyer_limit_price : ℕ

pub record SettlementAmounts : Type 0 where
  pub quote_cost : ℕ
  pub base_quantity : ℕ
  pub surplus_refund : ℕ
  pub base_currency : Text
  pub quote_currency : Text

pub record SettlementLedgerEntry : Type 0 where
  pub account_id : ℕ
  pub user_id : ℕ
  pub currency : Text
  pub type : LedgerType
  pub amount : ℕ
  pub available_delta : ℤ
  pub locked_delta : ℤ
  pub reference_id : Text

-- The element of a list at a place; past its end JavaScript's `undefined`, here the empty text.
abbrev pub part : List Text → ℕ → Text
part [] n = []
part (t ∷ ts) zero = t
part (t ∷ ts) (suc n) = part ts n

unfoldable pub calculate_settlement_amounts : (ℕ → ℕ) → Trade → SettlementAmounts
unfolding split_from
calculate_settlement_amounts to_fixed trade = record {
  quote_cost = to_fixed (trade.price * trade.quantity);
  base_quantity = trade.quantity;
  surplus_refund =
      if ltb trade.price trade.buyer_limit_price
      then to_fixed ((trade.buyer_limit_price - trade.price) * trade.quantity)
      else 0;
  base_currency = part (split_from [] trade.symbol) 0;
  quote_currency = part (split_from [] trade.symbol) 1;
}

-- The ids of the four accounts of a settlement.
pub record AccountIds : Type 0 where
  pub buyer_quote : ℕ
  pub buyer_base : ℕ
  pub seller_quote : ℕ
  pub seller_base : ℕ

unfoldable pub build_settlement_ledger_params :
    Trade → SettlementAmounts → AccountIds → List SettlementLedgerEntry
build_settlement_ledger_params trade amounts ids =
    record {
      account_id = ids.buyer_quote;
      user_id = trade.buyer_user_id;
      currency = amounts.quote_currency;
      type = trade_settlement;
      amount = amounts.quote_cost;
      available_delta = pos amounts.surplus_refund;
      locked_delta = pos 0 -ℤ pos (amounts.quote_cost + amounts.surplus_refund);
      reference_id = trade.trade_id;
    }
    ∷ record {
      account_id = ids.buyer_base;
      user_id = trade.buyer_user_id;
      currency = amounts.base_currency;
      type = trade_settlement;
      amount = amounts.base_quantity;
      available_delta = pos amounts.base_quantity;
      locked_delta = pos 0;
      reference_id = trade.trade_id;
    }
    ∷ record {
      account_id = ids.seller_base;
      user_id = trade.seller_user_id;
      currency = amounts.base_currency;
      type = trade_settlement;
      amount = amounts.base_quantity;
      available_delta = pos 0;
      locked_delta = pos 0 -ℤ pos amounts.base_quantity;
      reference_id = trade.trade_id;
    }
    ∷ record {
      account_id = ids.seller_quote;
      user_id = trade.seller_user_id;
      currency = amounts.quote_currency;
      type = trade_settlement;
      amount = amounts.quote_cost;
      available_delta = pos amounts.quote_cost;
      locked_delta = pos 0;
      reference_id = trade.trade_id;
    }
    ∷ []
