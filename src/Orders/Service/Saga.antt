-- ===== src/Orders/Service/Saga.antt =====
-- `createOrder` of apps/orders/src/orders/orders.service.ts against the balances of the accounts
-- service: what it leaves locked on success, and what the compensation undoes on an error.
use ether_trade.Prelude.{
  ℕ, ◌+◌, ◌≤◌, Bool, false, ◌&&◌, none, some, Text, text_eq, ◌==◌, if◌then◌else◌, ◌≡◌,
}
use ether_trade.Orders.Service.Types.{
  BalanceRequest, AccountsClient, OrderItem, World, Result, ok, error,
}

-- A request is about a user's balance in a currency.
abbrev pub concerns : BalanceRequest → ℕ → Text → Bool
concerns r user currency = (user == r.user_id) && text_eq currency r.currency

abbrev pub share : BalanceRequest → ℕ → Text → ℕ
share r user currency = if concerns r user currency then r.amount else 0

-- What the accounts service does for its client: it locks with a new key what a user has available,
-- or refuses and changes nothing; it unlocks with a new key what is locked.
pub record LocksBalances {X : Type 0} (client : AccountsClient X) : Type 0 where
  pub locked : ℕ → Text → X → ℕ
  pub is_used : Text → X → Bool
  pub lock_refused :
      (r : BalanceRequest) (x : X) (m : Text) (user : ℕ) (currency : Text)
      → (client.lock_balance r x).0 ≡ some m
      → locked user currency (client.lock_balance r x).1 ≡ locked user currency x
  pub lock_done :
      (r : BalanceRequest) (x : X) (user : ℕ) (currency : Text)
      → is_used r.idempotency_key x ≡ false
      → (client.lock_balance r x).0 ≡ none
      → locked user currency (client.lock_balance r x).1
        ≡ locked user currency x + share r user currency
  pub lock_key :
      (r : BalanceRequest) (x : X) (key : Text)
      → text_eq key r.idempotency_key ≡ false
      → is_used key (client.lock_balance r x).1 ≡ is_used key x
  pub unlock_done :
      (r : BalanceRequest) (x : X) (user : ℕ) (currency : Text)
      → is_used r.idempotency_key x ≡ false
      → r.amount ≤ locked r.user_id r.currency x
      → locked user currency (client.unlock_balance r x).1 + share r user currency
        ≡ locked user currency x

module _ {X : Type 0} (client : AccountsClient X) (laws : LocksBalances client) where
  -- On an error the tables of orders and events and all locked balances are as before; on success
  -- the order's hold has been added to the locked balances.
  abbrev pub Ends : BalanceRequest → World X → Result OrderItem × World X → Type 0
  Ends q w (error e, w') =
      (w'.orders ≡ w.orders)
      × (w'.events ≡ w.events)
      × ((user : ℕ) (currency : Text)
          → laws.locked user currency w'.accounts ≡ laws.locked user currency w.accounts)
  Ends q w (ok item, w') =
      (user : ℕ) (currency : Text)
      → laws.locked user currency w'.accounts
        ≡ laws.locked user currency w.accounts + share q user currency
