-- ===== src/Accounts/Repository/Operations.antt =====
-- The balance operations of apps/accounts/src/balances/balances.repository.ts, each one database
-- transaction.
use ether_trade.Prelude.{ℕ, Bool, ◌&&◌, Option, none, some, [], ◌∷◌, Text}
use ether_trade.Prelude.Int.{ℤ, pos, ◌+ℤ◌, ◌-ℤ◌, leb_ℤ}
use ether_trade.Transaction.{type_error, Outcome, value, Tx, pure, raise, ◌>>=◌, transaction}
use ether_trade.Accounts.Types.{
  LedgerType, Account, Database, Params, MutationResult, ok, not_found, insufficient_available,
  insufficient_locked, Env,
}
use ether_trade.Accounts.Repository.Queries.{
  created_or_found, find_by_user_and_currency, has_id, ledger_row, lock_account,
  lock_or_create_account, record_ledger, resolve_replay, update_returning,
}

-- `if (replay) { return replay; } rest`
abbrev pub or_return :
    Option MutationResult → Tx Database MutationResult → Tx Database MutationResult
or_return (some r) rest = pure r
or_return none rest = rest

-- `if (!account) { return { status: NOT_FOUND }; } rest`
abbrev pub or_not_found :
    Option Account → (Account → Tx Database MutationResult) → Tx Database MutationResult
or_not_found none rest = pure not_found
or_not_found (some a) rest = rest a

-- `referenceId || null`
abbrev pub or_null : Option Text → Option Text
or_null none = none
or_null (some []) = none
or_null (some (c ∷ t)) = some (c ∷ t)

-- The update of a credit and its ledger row, in `deposit` and `creditDeposit`.
unfoldable pub post_credit :
    LedgerType → Option Text → Env → Params → Account → Tx Database MutationResult
post_credit type reference env p a = do
  updated ← update_returning (has_id a.id) λ x. record x {
    available_balance = x.available_balance +ℤ pos p.amount;
    updated_at = env.now;
  }
  elim updated [
    | none ↦ raise type_error
    | some u ↦ do
      early ← record_ledger p type (ledger_row p type (pos p.amount) (pos 0) reference u)
      or_return early (pure (ok u))
  ]

unfoldable pub deposit_fresh : Env → Params → Tx Database MutationResult
deposit_fresh env p = do
  account ← lock_or_create_account env p
  or_not_found account (post_credit LedgerType.deposit none env p)

unfoldable pub deposit : Env → Params → Database → Outcome MutationResult × Database
deposit env p =
    transaction
      do replay ← resolve_replay p LedgerType.deposit; or_return replay (deposit_fresh env p)

unfoldable pub credit_deposit_fresh : Env → Params → Tx Database MutationResult
credit_deposit_fresh env p = do
  account ← lock_or_create_account env p
  or_not_found account (post_credit LedgerType.on_chain_deposit (or_null p.reference_id) env p)

unfoldable pub credit_deposit : Env → Params → Database → Outcome MutationResult × Database
credit_deposit env p = transaction do
  replay ← resolve_replay p LedgerType.on_chain_deposit
  or_return replay (credit_deposit_fresh env p)

-- The guarded update of `lock`, `unlock` and `debitWithdrawal` and its ledger row; `refused` is
-- the answer where no row satisfied the guard.
unfoldable pub post_guarded :
    LedgerType
    → (Account → Bool)
    → (Account → Account)
    → ℤ
    → ℤ
    → MutationResult
    → Params
    → Account
    → Tx Database MutationResult
post_guarded type guard change available_delta locked_delta refused p a = do
  updated ← update_returning (λ x. has_id a.id x && guard x) change
  elim updated [
    | none ↦ pure refused
    | some u ↦ do
      early ←
          record_ledger p type
            (ledger_row p type available_delta locked_delta (or_null p.reference_id) u)
      or_return early (pure (ok u))
  ]

unfoldable pub lock_fresh : Env → Params → Tx Database MutationResult
lock_fresh env p = do
  account ← lock_account env p
  or_not_found account λ a.
      post_guarded LedgerType.lock (λ x. leb_ℤ (pos p.amount) x.available_balance)
        (λ x. record x {
          available_balance = x.available_balance -ℤ pos p.amount;
          locked_balance = x.locked_balance +ℤ pos p.amount;
          updated_at = env.now;
        })
        (pos 0 -ℤ pos p.amount) (pos p.amount) (insufficient_available a.available_balance) p a

unfoldable pub lock : Env → Params → Database → Outcome MutationResult × Database
lock env p =
    transaction do replay ← resolve_replay p LedgerType.lock; or_return replay (lock_fresh env p)

unfoldable pub unlock_fresh : Env → Params → Tx Database MutationResult
unlock_fresh env p = do
  account ← lock_account env p
  or_not_found account λ a.
      post_guarded LedgerType.unlock (λ x. leb_ℤ (pos p.amount) x.locked_balance)
        (λ x. record x {
          available_balance = x.available_balance +ℤ pos p.amount;
          locked_balance = x.locked_balance -ℤ pos p.amount;
          updated_at = env.now;
        })
        (pos p.amount) (pos 0 -ℤ pos p.amount) (insufficient_locked a.locked_balance) p a

unfoldable pub unlock : Env → Params → Database → Outcome MutationResult × Database
unlock env p =
    transaction
      do replay ← resolve_replay p LedgerType.unlock; or_return replay (unlock_fresh env p)

unfoldable pub debit_withdrawal_fresh : Env → Params → Tx Database MutationResult
debit_withdrawal_fresh env p = do
  account ← lock_account env p
  or_not_found account λ a.
      post_guarded LedgerType.withdrawal (λ x. leb_ℤ (pos p.amount) x.locked_balance)
        (λ x. record x { locked_balance = x.locked_balance -ℤ pos p.amount; updated_at = env.now })
        (pos 0) (pos 0 -ℤ pos p.amount) (insufficient_locked a.locked_balance) p a

unfoldable pub debit_withdrawal : Env → Params → Database → Outcome MutationResult × Database
debit_withdrawal env p = transaction do
  replay ← resolve_replay p LedgerType.withdrawal
  or_return replay (debit_withdrawal_fresh env p)

-- `findOrCreate`; the insert runs on its own, so its `catch` reads what others committed.
unfoldable pub find_or_create : Env → ℕ → Text → Database → Outcome Account × Database
unfolding find_by_user_and_currency
find_or_create env user_id currency d = elim (find_by_user_and_currency user_id currency d) [
  | some a ↦ (value a, d)
  | none ↦ created_or_found env user_id currency (env.before_insert d)
]
