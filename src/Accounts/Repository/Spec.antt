-- ===== src/Accounts/Repository/Spec.antt =====
-- What each balance operation promises: one plain function over the five operations, with no
-- sessions and no handlers.
use ether_trade.Prelude.{
  ℕ, Bool, true, false, not, ◌&&◌, ◌||◌, Option, none, some, Text, text_eq, ◌==◌, if◌then◌else◌,
  select_first,
}
use ether_trade.Prelude.Int.{ℤ, pos, ◌+ℤ◌, ◌-ℤ◌, leb_ℤ}
use ether_trade.Transaction.{in_failed_transaction, type_error, Outcome, value, throw}
use ether_trade.Accounts.Types.{
  LedgerType, type_code, Account, LedgerTransaction, Database, Params, MutationResult, ok,
  idempotent_replay, not_found, idempotency_payload_mismatch, insufficient_available,
  insufficient_locked, Env,
}
use ether_trade.Accounts.Repository.Queries.{
  has_id, find_by_user_and_currency, find_ledger_by_idempotency_key, find_account, new_account,
  add_account, add_ledger, set_accounts, is_some, key_taken, ledger_row,
}
use ether_trade.Accounts.Repository.Operations.{
  or_null, deposit, credit_deposit, lock, unlock, debit_withdrawal,
}

pub data Operation : Type 0 where
  deposits credits locks unlocks debits : Operation

abbrev pub perform : Operation → Env → Params → Database → Outcome MutationResult × Database
perform deposits = deposit
perform credits = credit_deposit
perform locks = lock
perform unlocks = unlock
perform debits = debit_withdrawal

abbrev pub ledger_type : Operation → LedgerType
ledger_type deposits = LedgerType.deposit
ledger_type credits = LedgerType.on_chain_deposit
ledger_type locks = LedgerType.lock
ledger_type unlocks = LedgerType.unlock
ledger_type debits = LedgerType.withdrawal

-- What an operation of some amount adds to the two balances.
abbrev pub available_delta : Operation → ℕ → ℤ
available_delta deposits x = pos x
available_delta credits x = pos x
available_delta locks x = pos 0 -ℤ pos x
available_delta unlocks x = pos x
available_delta debits x = pos 0

abbrev pub locked_delta : Operation → ℕ → ℤ
locked_delta deposits x = pos 0
locked_delta credits x = pos 0
locked_delta locks x = pos x
locked_delta unlocks x = pos 0 -ℤ pos x
locked_delta debits x = pos 0 -ℤ pos x

abbrev pub reference : Operation → Params → Option Text
reference deposits p = none
reference _ p = or_null p.reference_id

abbrev pub covers : Operation → ℕ → Account → Bool
covers deposits x a = true
covers credits x a = true
covers locks x a = leb_ℤ (pos x) a.available_balance
covers unlocks x a = leb_ℤ (pos x) a.locked_balance
covers debits x a = leb_ℤ (pos x) a.locked_balance

abbrev pub changed : Operation → ℕ → ℕ → Account → Account
changed deposits x now a = record a {
  available_balance = a.available_balance +ℤ pos x;
  updated_at = now;
}
changed credits x now a = record a {
  available_balance = a.available_balance +ℤ pos x;
  updated_at = now;
}
changed locks x now a = record a {
  available_balance = a.available_balance -ℤ pos x;
  locked_balance = a.locked_balance +ℤ pos x;
  updated_at = now;
}
changed unlocks x now a = record a {
  available_balance = a.available_balance +ℤ pos x;
  locked_balance = a.locked_balance -ℤ pos x;
  updated_at = now;
}
changed debits x now a = record a { locked_balance = a.locked_balance -ℤ pos x; updated_at = now }

-- The answer where no row satisfies the guard of the update.
abbrev pub refused : Operation → Account → Outcome MutationResult
refused deposits a = throw type_error
refused credits a = throw type_error
refused locks a = value (insufficient_available a.available_balance)
refused unlocks a = value (insufficient_locked a.locked_balance)
refused debits a = value (insufficient_locked a.locked_balance)

abbrev pub creates : Operation → Bool
creates deposits = true
creates credits = true
creates _ = false

-- What an earlier use of the idempotency key answers.
abbrev pub replay_of : LedgerType → Params → Database → Option MutationResult
replay_of type p d = elim (find_ledger_by_idempotency_key p.idempotency_key d) [
  | none ↦ none
  | some t ↦
      if not (t.amount == p.amount)
        || not (text_eq t.currency p.currency)
        || not (type_code t.type == type_code type)
      then some idempotency_payload_mismatch
      else elim (find_account t.account_id d) [
        | none ↦ some not_found
        | some a ↦ some (idempotent_replay a)
      ]
]

-- The row that the guarded update of an operation touches.
abbrev pub touches : Operation → ℕ → Account → Account → Bool
touches deposits x a = has_id a.id
touches credits x a = has_id a.id
touches op x a = λ r. has_id a.id r && covers op x r

-- The ledger row of an operation that left the account as `u`.
abbrev pub entry : Operation → Params → Account → LedgerTransaction
entry op p u =
    ledger_row p (ledger_type op) (available_delta op p.amount) (locked_delta op p.amount)
      (reference op p) u

-- The database after a successful operation on the row `x`.
abbrev pub applied : Operation → Env → Params → Account → Account → Database → Database
applied op env p a x d =
    add_ledger (entry op p (changed op p.amount env.now x))
      (set_accounts (touches op p.amount a) (changed op p.amount env.now) d)

-- The update and the ledger row, from a session with what a rollback leaves.
abbrev pub post :
    Operation → Env → Params → Database → Account → Database → Outcome MutationResult × Database
post op env p base a d = elim (select_first (touches op p.amount a) d.accounts) [
  | none ↦ (refused op a, base)
  | some x ↦
      if key_taken p d
      then (throw in_failed_transaction, base)
      else (value (ok (changed op p.amount env.now x)), applied op env p a x d)
]

abbrev pub on_missing :
    Bool → Operation → Env → Params → Database → Outcome MutationResult × Database
on_missing false op env p d = (value not_found, d)
on_missing true op env p d =
    let b = env.before_insert d in
    let fresh = new_account env p.user_id p.currency in
    if is_some (find_by_user_and_currency p.user_id p.currency b)
    then (throw in_failed_transaction, b)
    else post op env p b fresh (add_account fresh b)

-- What is promised where the idempotency key is new to the database that the call first sees.
abbrev pub promised_fresh : Operation → Env → Params → Database → Outcome MutationResult × Database
promised_fresh op env p d =
    let d' = env.while_locking d in
    elim (find_by_user_and_currency p.user_id p.currency d') [
      | none ↦ on_missing (creates op) op env p d'
      | some a ↦ post op env p d' a d'
    ]

abbrev pub promised : Operation → Env → Params → Database → Outcome MutationResult × Database
promised op env p d = elim (replay_of (ledger_type op) p d) [
  | some r ↦ (value r, d)
  | none ↦ promised_fresh op env p d
]
