-- ===== src/Accounts/Repository/Queries.antt =====
-- The queries and single statements of apps/accounts/src/balances/balances.repository.ts, and its
-- resolveIdempotencyReplay.
use ether_trade.Prelude.{
  ◌≡◌, refl, ℕ, Bool, true, false, not, ◌&&◌, ◌||◌, Option, none, some, [], ◌∷◌, ◌++◌, Text,
  text_eq, ◌==◌, if◌then◌else◌, select_first, update_where,
}
use ether_trade.Prelude.Int.{ℤ, pos}
use mathlib.Core.Option
use ether_trade.Transaction.{
  Fault, unique_violation, account_create_failed, Outcome, value, throw, Tx, pure, raise, ◌>>=◌,
  ◌>>◌, catch, statement, select, await_others, insert,
}
use ether_trade.Accounts.Types.{
  LedgerType, type_code, Account, LedgerTransaction, Database, Params, MutationResult,
  idempotent_replay, not_found, idempotency_payload_mismatch, Env,
}

-- `where(and(eq(accounts.userId, userId), eq(accounts.currency, currency)))`
abbrev pub owned_by : ℕ → Text → Account → Bool
owned_by user_id currency a = a.user_id == user_id && text_eq a.currency currency

abbrev pub has_id : ℕ → Account → Bool
has_id id a = a.id == id

abbrev pub key_is : Text → Option Text → Bool
key_is key none = false
key_is key (some k) = text_eq k key

abbrev pub has_key : Text → LedgerTransaction → Bool
has_key key t = key_is key t.idempotency_key

unfoldable pub find_by_user_and_currency : ℕ → Text → Database → Option Account
unfolding select_first
find_by_user_and_currency user_id currency d = select_first (owned_by user_id currency) d.accounts

unfoldable pub find_ledger_by_idempotency_key : Text → Database → Option LedgerTransaction
unfolding select_first
find_ledger_by_idempotency_key key d = select_first (has_key key) d.ledger

unfoldable pub find_account : ℕ → Database → Option Account
unfolding select_first
find_account id d = select_first (has_id id) d.accounts

-- A row that an insert of `accounts` adds; the balances default to zero.
abbrev pub new_account : Env → ℕ → Text → Account
new_account env user_id currency = record {
  id = env.new_id;
  user_id = user_id;
  currency = currency;
  available_balance = pos 0;
  locked_balance = pos 0;
  updated_at = env.now;
}

abbrev pub add_account : Account → Database → Database
add_account a d = record d { accounts = d.accounts ++ a ∷ [] }

abbrev pub add_ledger : LedgerTransaction → Database → Database
add_ledger t d = record d { ledger = d.ledger ++ t ∷ [] }

abbrev pub set_accounts : (Account → Bool) → (Account → Account) → Database → Database
set_accounts p f d = record d { accounts = update_where p f d.accounts }

abbrev pub is_some : {A : Type 0} → Option A → Bool
is_some none = false
is_some (some a) = true

-- `update accounts set f where p returning *`
abbrev pub update_returning : (Account → Bool) → (Account → Account) → Tx Database (Option Account)
update_returning p f = statement λ s.
    (value (Option.map f (select_first p s.db.accounts)), record s { db = set_accounts p f s.db })

abbrev pub replay_result : Option Account → MutationResult
replay_result none = not_found
replay_result (some a) = idempotent_replay a

-- `resolveIdempotencyReplay`
unfoldable pub resolve_replay : Params → LedgerType → Tx Database (Option MutationResult)
resolve_replay p expected = do
  existing ← select (find_ledger_by_idempotency_key p.idempotency_key)
  elim existing [
    | none ↦ pure none
    | some t ↦
        if not (t.amount == p.amount)
          || not (text_eq t.currency p.currency)
          || not (type_code t.type == type_code expected)
        then pure (some idempotency_payload_mismatch)
        else do current ← select (find_account t.account_id); pure (some (replay_result current))
  ]

-- `isIdempotencyUniqueViolation`
abbrev pub is_unique_violation : Fault → Bool
is_unique_violation unique_violation = true
is_unique_violation _ = false

-- The `catch` of an insert into the ledger: what the call returns early, if anything.
unfoldable pub concurrent_replay : Params → LedgerType → Fault → Tx Database (Option MutationResult)
concurrent_replay p type e = do
  concurrent ← resolve_replay p type
  elim concurrent [ some r ↦ pure (some r) | none ↦ raise e ]

abbrev pub key_taken : Params → Database → Bool
key_taken p d = is_some (find_ledger_by_idempotency_key p.idempotency_key d)

unfoldable pub record_ledger :
    Params → LedgerType → LedgerTransaction → Tx Database (Option MutationResult)
record_ledger p type t =
    catch (insert (key_taken p) (add_ledger t) >> pure none)
      λ e. if is_unique_violation e then concurrent_replay p type e else raise e

-- `select … for update`, and where a credit finds no account, the insert of one with its `catch`.
unfoldable pub lock_account : Env → Params → Tx Database (Option Account)
lock_account env p = do
  await_others env.while_locking
  select (find_by_user_and_currency p.user_id p.currency)

unfoldable pub create_if_missing : Env → Params → Option Account → Tx Database (Option Account)
create_if_missing env p (some a) = pure (some a)
create_if_missing env p none =
    let fresh = new_account env p.user_id p.currency in
    catch
      (do
        await_others env.before_insert
        insert (λ d. is_some (find_by_user_and_currency p.user_id p.currency d)) (add_account fresh)
        pure (some fresh))
      λ _. select (find_by_user_and_currency p.user_id p.currency)

unfoldable pub lock_or_create_account : Env → Params → Tx Database (Option Account)
lock_or_create_account env p = do account ← lock_account env p; create_if_missing env p account

-- The ledger row of an operation, with the balances after it.
abbrev pub ledger_row : Params → LedgerType → ℤ → ℤ → Option Text → Account → LedgerTransaction
ledger_row p type available_delta locked_delta reference u = record {
  account_id = u.id;
  user_id = p.user_id;
  currency = p.currency;
  type = type;
  amount = p.amount;
  available_delta = available_delta;
  locked_delta = locked_delta;
  balance_after_available = u.available_balance;
  balance_after_locked = u.locked_balance;
  idempotency_key = some p.idempotency_key;
  reference_id = reference;
}

-- The insert of `findOrCreate` and the query of its `catch`.
unfoldable pub created_or_found : Env → ℕ → Text → Database → Outcome Account × Database
unfolding find_by_user_and_currency
created_or_found env user_id currency d =
    if is_some (find_by_user_and_currency user_id currency d)
    then elim (find_by_user_and_currency user_id currency d) [
      | some a ↦ (value a, d)
      | none ↦ (throw account_create_failed, d)
    ]
    else (
      value (new_account env user_id currency),
      add_account (new_account env user_id currency) d,
    )

pub is_some-none : {A : Type 0} (o : Option A) → is_some o ≡ false → o ≡ none
is_some-none none h = refl
is_some-none (some a) h = cc
