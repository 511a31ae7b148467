-- ===== src/Transfers/Sample.antt =====
-- An accounts service and rounding with which the theorems on apps/transfers/src are applied.
use ether_trade.Prelude.{
  some, true, ◌≡◌, ℕ, ◌+◌, ◌-◌, ◌*◌, ◌/◌, refl, Bool, false, ◌||◌, Option, none, List, [], ◌∷◌,
  Text, text_eq, text_eq_refl, if◌then◌else◌, arith, Bool-cases, inl, inr,
}
use native.Mathlib.Nat.{div-mul-le_self, lt-div-mul-add}
use ether_trade.Decimal.{scale}
use ether_trade.Transfers.Types.{share, BalanceRequest, AccountsClient}
use ether_trade.Transfers.Units.{Numbers, Truncates}
use ether_trade.Transfers.Withdrawals.Backing.{KeepsFunds}
use ether_trade.Transfers.Deposits.Credits.{CreditsOnce}

-- An accounts service that keeps the locked and the available balances and the used keys.
pub record Accounts : Type 0 where
  pub keys : List Text
  pub locked : Text → Text → ℕ
  pub funds : Text → Text → ℕ

abbrev uses : Text → List Text → Bool
uses key [] = false
uses key (k ∷ ks) = text_eq key k || uses key ks

abbrev lock_balance : BalanceRequest → Accounts → Option Text × Accounts
lock_balance r x = (
  none,
  if uses r.idempotency_key x.keys then x else record {
    keys = r.idempotency_key ∷ x.keys;
    locked = λ user currency. x.locked user currency + share r user currency;
    funds = x.funds;
  },
)

abbrev release : BalanceRequest → Accounts → Option Text × Accounts
release r x =
    (none, record x { locked = λ user currency. x.locked user currency - share r user currency })

abbrev credit : BalanceRequest → Accounts → Option Text × Accounts
credit r x = (
  none,
  if uses r.idempotency_key x.keys then x else record {
    keys = r.idempotency_key ∷ x.keys;
    locked = x.locked;
    funds = λ user currency. x.funds user currency + share r user currency;
  },
)

abbrev pub client : AccountsClient Accounts
client = record {
  lock_balance = lock_balance;
  unlock_balance = release;
  debit_withdrawal_funds = release;
  credit_deposit_funds = credit;
}

pub never_refused : (message : Text) → none ≡ some message → ⊥
never_refused message refused = cc

pub uses_more : (key k : Text) (ks : List Text) → uses key ks ≡ true → uses key (k ∷ ks) ≡ true
uses_more key k ks used = ground arith

unfoldable pub client_keeps_funds : KeepsFunds client
client_keeps_funds = record {
  locked = λ user currency x. x.locked user currency;
  is_used = λ key x. uses key x.keys;
  lock_adds = λ r x user currency unused granted. rw unused (omega arith);
  lock_keeps = λ r x user currency. elim (Bool-cases (uses r.idempotency_key x.keys)) [
    | inl used ↦ rw used (omega arith)
    | inr unused ↦ rw unused (omega arith)
  ];
  unlock_takes = λ r x user currency. omega arith;
  debit_takes = λ r x user currency. omega arith;
  debit_refused = λ r x m user currency refused. absurd (never_refused m refused);
}

unfoldable pub client_credits_once : CreditsOnce client
client_credits_once = record {
  funds = λ user currency x. x.funds user currency;
  is_used = λ key x. uses key x.keys;
  used_stays = λ r x key used. elim (Bool-cases (uses r.idempotency_key x.keys)) [
    | inl before ↦ rw before used
    | inr not_before ↦ rw not_before (uses_more key r.idempotency_key x.keys used)
  ];
  other_keys = λ r x key other. elim (Bool-cases (uses r.idempotency_key x.keys)) [
    | inl before ↦ rw before refl
    | inr not_before ↦ rw not_before (rw other refl)
  ];
  adds_once = λ r x user currency. elim (Bool-cases (uses r.idempotency_key x.keys)) [
    | inl before ↦ rw (before, before) (omega arith)
    | inr not_before ↦ rw (not_before, text_eq_refl r.idempotency_key) refl
  ];
  done_used = λ r x done. elim (Bool-cases (uses r.idempotency_key x.keys)) [
    | inl before ↦ rw (before, before) refl
    | inr not_before ↦ rw (not_before, text_eq_refl r.idempotency_key) refl
  ];
}

abbrev pub exact : Numbers
exact = record { divided_by = λ x y. x * scale / y; to_fixed_0 = λ x. x / scale }

pub exact-Truncates : Truncates exact
exact-Truncates = record {
  divided_le = λ x y pos. div-mul-le_self (x * scale) y;
  divided_near = λ x y pos. lt-div-mul-add {a = x * scale} pos;
  fixed_le = λ x. div-mul-le_self x scale;
  fixed_near = λ x. lt-div-mul-add {a = x} (omega arith);
}
