-- ===== src/Transfers/Withdrawals/Rows.antt =====
-- The rows of withdrawals that are open, that is, pending or in processing
-- (apps/transfers/src/transfers/transfers.repository.ts): what each update changes of them.
use ether_trade.Prelude.{
  ℕ, ◌+◌, ◌≡◌, ◌≢◌, refl, ap, ◌∙◌, Bool, true, false, ◌&&◌, some, Text, text_eq, if◌then◌else◌,
  sum_of, arith, select_first,
}
use ether_trade.Prelude.Keys.{
  DistinctBy, DistinctBy-update_where, select_first-updated, sum_of-update_where,
}
use ether_trade.Prelude.Rows.{select_first-other}
use ether_trade.Transfers.Types.{
  WithdrawalStatus, pending, processing, completed, failed, WithdrawalRequest, Database,
}
use ether_trade.Transfers.Repository.{
  withdrawal_is, updated_withdrawal, as_processing, with_tx, as_completed, as_failed,
}
use ether_trade.Transfers.Withdrawals.Processor.{Withdrawal, of_row}

abbrev pub is_open : WithdrawalStatus → Bool
is_open pending = true
is_open processing = true
is_open completed = false
is_open failed = false

-- What an open request needs of a user's locked balance in a currency.
abbrev pub concerns : Text → Text → Withdrawal → Bool
concerns user currency x = text_eq user x.user_id && text_eq currency x.currency

abbrev pub needs : Text → Text → Withdrawal → ℕ
needs user currency x = if concerns user currency x then x.amount else 0

abbrev pub open_amount : Text → Text → WithdrawalRequest → ℕ
open_amount user currency r = if is_open r.status then needs user currency (of_row r) else 0

abbrev pub total_open : Text → Text → Database → ℕ
total_open user currency d = sum_of (open_amount user currency) d.withdrawals

abbrev pub DistinctIds : Database → Type 0
DistinctIds d = DistinctBy (λ (r : WithdrawalRequest). r.id) d.withdrawals

-- An open row with the fields of a withdrawal.
abbrev pub Holds : Withdrawal → Database → Type 0
Holds x d =
    (r : WithdrawalRequest) × (select_first (withdrawal_is x.id) d.withdrawals ≡ some r)
    × (of_row r ≡ x)
    × (is_open r.status ≡ true)

-- An update of a row that keeps its fields.
pub record KeepsFields (g : WithdrawalRequest → WithdrawalRequest) : Type 0 where
  pub fields : (r : WithdrawalRequest) → of_row (g r) ≡ of_row r

module _ (g : WithdrawalRequest → WithdrawalRequest) (keeps : KeepsFields g) (x : Withdrawal)
    (d : Database) where
  same_id : (r : WithdrawalRequest) → (g r).id ≡ r.id
  same_id r = ap (λ (y : Withdrawal). y.id) (keeps.fields r)

  pub updated-DistinctIds : DistinctIds d → DistinctIds (updated_withdrawal x.id g d)
  updated-DistinctIds distinct =
      DistinctBy-update_where (λ (r : WithdrawalRequest). r.id) g same_id (withdrawal_is x.id)
        d.withdrawals distinct

  -- An update that leaves the row open leaves the total.
  pub still_open :
      ((r : WithdrawalRequest) → is_open r.status ≡ true → is_open (g r).status ≡ true)
      → DistinctIds d
      → Holds x d
      → Holds x (updated_withdrawal x.id g d)
        × ((user currency : Text)
            → total_open user currency (updated_withdrawal x.id g d) ≡ total_open user currency d)
  still_open stays distinct (r, found, is, live) = (
    (
      g r,
      select_first-updated (λ (y : WithdrawalRequest). y.id) g same_id x.id d.withdrawals r found,
      keeps.fields r ∙ is,
      stays r live,
    ),
    λ user currency.
        let change =
          sum_of-update_where (λ (y : WithdrawalRequest). y.id) g (open_amount user currency) x.id
            d.withdrawals r distinct found in
        let before : open_amount user currency r ≡ needs user currency (of_row r) = rw live refl in
        let after : open_amount user currency (g r) ≡ needs user currency (of_row r) =
          rw (stays r live) (ap (needs user currency) (keeps.fields r)) in
        omega (arith, change, before, after),
  )

  -- An update that closes the row takes its amount from the total.
  pub now_closed :
      ((r : WithdrawalRequest) → is_open (g r).status ≡ false)
      → DistinctIds d
      → Holds x d
      → (user currency : Text)
      → total_open user currency (updated_withdrawal x.id g d) + needs user currency x
        ≡ total_open user currency d
  now_closed closes distinct (r, found, is, live) user currency =
      let change =
        sum_of-update_where (λ (y : WithdrawalRequest). y.id) g (open_amount user currency) x.id
          d.withdrawals r distinct found in
      let before : open_amount user currency r ≡ needs user currency x =
        rw live (ap (needs user currency) is) in
      let after : open_amount user currency (g r) ≡ 0 = rw (closes r) refl in
      omega (arith, change, before, after)

  -- Another request's row is not touched.
  pub other-Holds :
      (y : Withdrawal) → x.id ≢ y.id → Holds y d → Holds y (updated_withdrawal x.id g d)
  other-Holds y apart (r, found, is, live) = (
    r,
    select_first-other (λ (z : WithdrawalRequest). z.id) g x.id y.id d.withdrawals same_id apart
        ∙ found,
    is,
    live,
  )

pub as_processing-KeepsFields : KeepsFields as_processing
as_processing-KeepsFields = record { fields = λ r. refl }

pub with_tx-KeepsFields : (hash : Text) (nonce : ℕ) → KeepsFields (with_tx hash nonce)
with_tx-KeepsFields hash nonce = record { fields = λ r. refl }

pub as_completed-KeepsFields : (now : ℕ) → KeepsFields (as_completed now)
as_completed-KeepsFields now = record { fields = λ r. refl }

pub as_failed-KeepsFields : (now : ℕ) (message : Text) → KeepsFields (as_failed now message)
as_failed-KeepsFields now message = record { fields = λ r. refl }
