-- ===== src/Transfers/Withdrawals/Request.antt =====
-- apps/transfers/src/transfers/transfers.service.ts. What UUIDs,
-- addresses, `trim`, letter case and bignumber.js make of a string are parameters; errors are
-- constructors.
use ether_trade.Prelude.{
  ℕ, suc, Bool, true, false, not, ◌||◌, Option, none, some, List, [], ◌∷◌, ◌++◌, Text, text,
  text_eq, if◌then◌else◌, min, max,
}
use ether_trade.Prelude.Int.{ℤ, pos}
use ether_trade.Transfers.Types.{
  WithdrawalStatus, pending, WithdrawalRequest, Database, eth, usdt, BalanceRequest, AccountsClient,
  World,
}
use ether_trade.Transfers.Uuids.{uuid_to_bytes16}
use ether_trade.Transfers.Repository.{
  find_withdrawal_by_idempotency, create_withdrawal_request, find_withdrawal_by_id,
  find_user_withdrawals,
}

pub data ServiceError : Type 0 where
  invalid_user_id unsupported_currency invalid_amount invalid_destination_address : ServiceError
  idempotency_key_required withdrawal_not_found not_saved invalid_uuid_length : ServiceError
  lock_refused : Text → ServiceError

pub data Result (A : Type 0) : Type 0 where
  ok : A → Result A
  error : ServiceError → Result A

-- What a call takes from outside. `parse` gives units of 10^-16, or nothing for what is not finite;
-- `database_fails` is whether the insert fails for another reason than its unique index.
pub record RequestEnv : Type 0 where
  pub is_valid_uuid : Text → Bool
  pub is_address : Text → Bool
  pub trim : Text → Text
  pub upper : Text → Text
  pub lower : Text → Text
  pub parse : Text → Option ℤ
  pub to_fixed : ℕ → ℕ
  pub new_id : ℕ
  pub now : ℕ
  pub database_fails : Bool

pub record RequestWithdrawalRequest : Type 0 where
  pub user_id : Text
  pub currency : Text
  pub amount : Text
  pub destination_address : Text
  pub idempotency_key : Text

abbrev pub is_empty : Text → Bool
is_empty [] = true
is_empty (c ∷ t) = false

abbrev pub is_supported : Text → Bool
is_supported currency = text_eq currency eth || text_eq currency usdt

-- A number above zero, truncated to eight decimals.
abbrev pub truncated : RequestEnv → Option ℤ → Option ℕ
truncated env (some (pos (suc n))) = some (env.to_fixed (suc n))
truncated env _ = none

-- What the validation makes of a request.
pub record Validated : Type 0 where
  pub user_id : Text
  pub currency : Text
  pub amount : ℕ
  pub destination_address : Text
  pub idempotency_key : Text

abbrev pub validate_rest : RequestEnv → RequestWithdrawalRequest → ℕ → Result Validated
validate_rest env r amount =
    if is_empty r.destination_address || not (env.is_address r.destination_address)
    then error invalid_destination_address
    else if is_empty (env.trim r.idempotency_key)
    then error idempotency_key_required
    else ok (record {
      user_id = r.user_id;
      currency = env.upper (env.trim r.currency);
      amount = amount;
      destination_address = env.lower r.destination_address;
      idempotency_key = env.trim r.idempotency_key;
    })

abbrev pub validate_amount : RequestEnv → RequestWithdrawalRequest → Option ℕ → Result Validated
validate_amount env r none = error invalid_amount
validate_amount env r (some amount) = validate_rest env r amount

-- The validations in their order.
unfoldable pub validate : RequestEnv → RequestWithdrawalRequest → Result Validated
validate env r =
    if is_empty r.user_id || not (env.is_valid_uuid r.user_id)
    then error invalid_user_id
    else if not (is_supported (env.upper (env.trim r.currency)))
    then error unsupported_currency
    else validate_amount env r (truncated env (env.parse r.amount))

abbrev pub hold : Text → Validated → BalanceRequest
hold prefix v = record {
  user_id = v.user_id;
  amount = v.amount;
  currency = v.currency;
  idempotency_key = prefix ++ v.idempotency_key;
  reference_id = v.idempotency_key;
}

abbrev pub new_request : RequestEnv → Validated → WithdrawalRequest
new_request env v = record {
  id = env.new_id;
  user_id = v.user_id;
  idempotency_key = v.idempotency_key;
  destination_address = v.destination_address;
  currency = v.currency;
  amount = v.amount;
  tx_hash = none;
  nonce = none;
  status = pending;
  error_message = none;
  created_at = env.now;
  processed_at = none;
}

module _ {X : Type 0} (client : AccountsClient X) (env : RequestEnv) where
  -- A failed insert is compensated by an unlock, whose own failure is ignored.
  abbrev pub saved : Validated → World X → Option Database → Result WithdrawalRequest × World X
  saved v w (some d) = (ok (new_request env v), record w { db = d })
  saved v w none = (
    error not_saved,
    record w {
      accounts = (client.unlock_balance (hold (text "withdraw-lock-compensate:") v) w.accounts).1;
    },
  )

  unfoldable pub save : Validated → World X → Result WithdrawalRequest × World X
  unfolding create_withdrawal_request
  save v w =
      saved v w
        (if env.database_fails then none else create_withdrawal_request (new_request env v) w.db)

  abbrev pub after_lock : Validated → World X → Option Text × X → Result WithdrawalRequest × World X
  after_lock v w (some message, x) = (error (lock_refused message), record w { accounts = x })
  after_lock v w (none, x) = save v (record w { accounts = x })

  abbrev pub after_check :
      Validated → World X → Option WithdrawalRequest → Result WithdrawalRequest × World X
  after_check v w (some existing) = (ok existing, w)
  after_check v w none =
      after_lock v w (client.lock_balance (hold (text "withdraw-lock:") v) w.accounts)

  abbrev pub after_validation : Result Validated → World X → Result WithdrawalRequest × World X
  after_validation (error e) w = (error e, w)
  after_validation (ok v) w =
      after_check v w (find_withdrawal_by_idempotency v.user_id v.idempotency_key w.db)

  -- `requestWithdrawal`
  unfoldable pub request_withdrawal :
      RequestWithdrawalRequest → World X → Result WithdrawalRequest × World X
  unfolding validate save find_withdrawal_by_idempotency
  request_withdrawal r w = after_validation (validate env r) w

-- `getWithdrawalById` and `getWithdrawalHistory`
abbrev pub found_withdrawal : Option WithdrawalRequest → Result WithdrawalRequest
found_withdrawal none = error withdrawal_not_found
found_withdrawal (some x) = ok x

abbrev pub get_withdrawal_by_id : RequestEnv → ℕ → Text → Database → Result WithdrawalRequest
get_withdrawal_by_id env id user d =
    if is_empty user || not (env.is_valid_uuid user)
    then error invalid_user_id
    else found_withdrawal (find_withdrawal_by_id id user d)

-- `getDepositAddress`
pub record DepositAddress : Type 0 where
  pub vault_address : Text
  pub user_id : Text
  pub user_id_bytes16 : Text

abbrev pub address_for : Text → Text → Option Text → Result DepositAddress
address_for vault user none = error invalid_uuid_length
address_for vault user (some bytes16) =
    ok (record { vault_address = vault; user_id = user; user_id_bytes16 = bytes16 })

unfoldable pub get_deposit_address : RequestEnv → Text → Text → Result DepositAddress
unfolding uuid_to_bytes16
get_deposit_address env vault user =
    if is_empty user || not (env.is_valid_uuid user)
    then error invalid_user_id
    else address_for vault user (uuid_to_bytes16 user)

abbrev pub or_default : ℕ → Option ℕ → ℕ
or_default n none = n
or_default n (some m) = m

abbrev pub get_withdrawal_history :
    RequestEnv
    → (List WithdrawalRequest → List WithdrawalRequest)
    → Text
    → Option WithdrawalStatus
    → Option ℕ
    → Option ℕ
    → Database
    → Result (List WithdrawalRequest × ℕ)
get_withdrawal_history env newest_first user status limit offset d =
    if is_empty user || not (env.is_valid_uuid user)
    then error invalid_user_id
    else ok (
        find_user_withdrawals newest_first user status (min (max (or_default 20 limit) 1) 100)
          (or_default 0 offset) d)
