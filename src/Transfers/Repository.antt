-- ===== src/Transfers/Repository.antt =====
-- apps/transfers/src/transfers/transfers.repository.ts over the lists of rows. How the database sorts,
-- and which rows other transactions have locked, are parameters.
use ether_trade.Prelude.{
  ℕ, Bool, true, false, not, ◌&&◌, Option, none, some, List, [], ◌∷◌, ◌++◌, Text, text_eq, ◌==◌,
  if◌then◌else◌, length, take, drop, select_first, select_all, update_where,
}
use ether_trade.Transfers.Types.{
  WithdrawalStatus, pending, processing, completed, failed, credited, WithdrawalRequest,
  WalletDeposit, Database,
}

abbrev pub is_some {ℓ} : {A : Type ℓ} → Option A → Bool
is_some none = false
is_some (some _) = true

abbrev pub same_status : WithdrawalStatus → WithdrawalStatus → Bool
same_status pending pending = true
same_status processing processing = true
same_status completed completed = true
same_status failed failed = true
same_status _ _ = false

-- `getLastScannedBlock` and `updateLastScannedBlock`
unfoldable pub last_scanned_in : ℕ → List (ℕ × ℕ) → Option ℕ
last_scanned_in chain [] = none
last_scanned_in chain ((c, block) ∷ rest) =
    if c == chain then some block else last_scanned_in chain rest

abbrev pub get_last_scanned_block : ℕ → Database → Option ℕ
get_last_scanned_block chain d = last_scanned_in chain d.scanner

unfoldable pub upsert_scanned : ℕ → ℕ → List (ℕ × ℕ) → List (ℕ × ℕ)
upsert_scanned chain block [] = (chain, block) ∷ []
upsert_scanned chain block ((c, b) ∷ rest) =
    if c == chain then (chain, block) ∷ rest else (c, b) ∷ upsert_scanned chain block rest

abbrev pub update_last_scanned_block : ℕ → ℕ → Database → Database
update_last_scanned_block chain block d = record d {
  scanner = upsert_scanned chain block d.scanner;
}

-- Deposits; the hash of a transaction is unique.
abbrev pub deposit_of : Text → WalletDeposit → Bool
deposit_of hash x = text_eq x.tx_hash hash

unfoldable pub find_deposit_by_tx_hash : Text → Database → Option WalletDeposit
find_deposit_by_tx_hash hash d = select_first (deposit_of hash) d.deposits

unfoldable pub create_deposit : WalletDeposit → Database → Option Database
create_deposit x d =
    if is_some (find_deposit_by_tx_hash x.tx_hash d)
    then none
    else some (record d { deposits = d.deposits ++ x ∷ [] })

abbrev pub deposit_is : ℕ → WalletDeposit → Bool
deposit_is id x = x.id == id

-- `updateDepositStatus(id, CREDITED)`, its one use.
abbrev pub as_credited : ℕ → WalletDeposit → WalletDeposit
as_credited now x = record x { status = credited; credited_at = some now }

unfoldable pub credit_deposit_row : ℕ → ℕ → Database → Database
credit_deposit_row now id d = record d {
  deposits = update_where (deposit_is id) (as_credited now) d.deposits;
}

-- Withdrawals
abbrev pub requested_by : Text → Text → WithdrawalRequest → Bool
requested_by user key x = text_eq x.user_id user && text_eq x.idempotency_key key

unfoldable pub find_withdrawal_by_idempotency : Text → Text → Database → Option WithdrawalRequest
find_withdrawal_by_idempotency user key d = select_first (requested_by user key) d.withdrawals

abbrev pub withdrawal_is : ℕ → WithdrawalRequest → Bool
withdrawal_is id x = x.id == id

abbrev pub withdrawal_of : ℕ → Text → WithdrawalRequest → Bool
withdrawal_of id user x = x.id == id && text_eq x.user_id user

unfoldable pub find_withdrawal_by_id : ℕ → Text → Database → Option WithdrawalRequest
find_withdrawal_by_id id user d = select_first (withdrawal_of id user) d.withdrawals

-- The pair of user and key is unique.
unfoldable pub create_withdrawal_request : WithdrawalRequest → Database → Option Database
create_withdrawal_request x d =
    if is_some (find_withdrawal_by_idempotency x.user_id x.idempotency_key d)
    then none
    else some (record d { withdrawals = d.withdrawals ++ x ∷ [] })

abbrev pub is_stuck : WithdrawalRequest → Bool
is_stuck x = same_status x.status processing && is_some x.tx_hash

unfoldable pub find_processing_withdrawals_with_tx_hash : Database → List WithdrawalRequest
find_processing_withdrawals_with_tx_hash d = select_all is_stuck d.withdrawals

abbrev pub updated_withdrawal : ℕ → (WithdrawalRequest → WithdrawalRequest) → Database → Database
updated_withdrawal id f d = record d {
  withdrawals = update_where (withdrawal_is id) f d.withdrawals;
}

abbrev pub as_processing : WithdrawalRequest → WithdrawalRequest
as_processing x = record x { status = processing }

abbrev pub with_tx : Text → ℕ → WithdrawalRequest → WithdrawalRequest
with_tx hash nonce x = record x { tx_hash = some hash; nonce = some nonce }

abbrev pub as_completed : ℕ → WithdrawalRequest → WithdrawalRequest
as_completed now x = record x { status = completed; processed_at = some now }

abbrev pub as_failed : ℕ → Text → WithdrawalRequest → WithdrawalRequest
as_failed now message x = record x {
  status = failed;
  error_message = some message;
  processed_at = some now;
}

-- Rows that another transaction has locked are passed over, the others come by `created_at`.
pub record Fetch : Type 0 where
  pub is_locked : WithdrawalRequest → Bool
  pub oldest_first : List WithdrawalRequest → List WithdrawalRequest

abbrev pub first_of : List WithdrawalRequest → Option WithdrawalRequest
first_of [] = none
first_of (x ∷ _) = some x

unfoldable pub next_pending : Fetch → Database → Option WithdrawalRequest
next_pending f d = first_of (
    f.oldest_first
      (select_all (λ x. same_status x.status pending && not (f.is_locked x)) d.withdrawals))

-- `lockNextPendingWithdrawal`: the row, now in processing.
abbrev pub locked_row : Database → Option WithdrawalRequest → Option WithdrawalRequest × Database
locked_row d none = (none, d)
locked_row d (some x) = (some (as_processing x), updated_withdrawal x.id as_processing d)

unfoldable pub lock_next_pending_withdrawal : Fetch → Database → Option WithdrawalRequest × Database
unfolding next_pending
lock_next_pending_withdrawal f d = locked_row d (next_pending f d)

unfoldable pub update_withdrawal_tx : ℕ → Text → ℕ → Database → Database
update_withdrawal_tx id hash nonce d = updated_withdrawal id (with_tx hash nonce) d

unfoldable pub complete_withdrawal_row : ℕ → ℕ → Database → Database
complete_withdrawal_row now id d = updated_withdrawal id (as_completed now) d

unfoldable pub fail_withdrawal_row : ℕ → ℕ → Text → Database → Database
fail_withdrawal_row now id message d = updated_withdrawal id (as_failed now message) d

-- `findUserWithdrawals`
abbrev pub is_listed : Text → Option WithdrawalStatus → WithdrawalRequest → Bool
is_listed user none x = text_eq x.user_id user
is_listed user (some s) x = text_eq x.user_id user && same_status x.status s

unfoldable pub find_user_withdrawals :
    (List WithdrawalRequest → List WithdrawalRequest)
    → Text
    → Option WithdrawalStatus
    → ℕ
    → ℕ
    → Database
    → List WithdrawalRequest × ℕ
find_user_withdrawals newest_first user status limit offset d =
    let rows = select_all (is_listed user status) d.withdrawals in
    (take limit (drop offset (newest_first rows)), length rows)
