-- ===== src/Transfers/Withdrawals/Backing.antt =====
-- The locked funds of open withdrawals: the calls of
-- apps/transfers/src/transfers/transfers.service.ts and
-- apps/transfers/src/transfers/processors/withdrawal-processor.service.ts against the accounts service.
use ether_trade.Prelude.{
  ℕ, ◌+◌, ◌≤◌, ◌≡◌, refl, Bool, true, false, none, some, Text, arith, Option-cases, inl, inr, take,
}
use ether_trade.Transfers.Types.{
  share, WithdrawalStatus, pending, processing, completed, failed, BalanceRequest, AccountsClient,
  World,
}
use ether_trade.Transfers.Repository.{
  same_status, with_tx, as_completed, as_failed, complete_withdrawal_row, fail_withdrawal_row,
  update_withdrawal_tx,
}
use ether_trade.Transfers.Withdrawals.Processor.{
  Withdrawal, ChainEnv, debit_request, unlock_request, complete_withdrawal, fail_withdrawal,
}
use ether_trade.Transfers.Withdrawals.Rows.{
  is_open, total_open, DistinctIds, Holds, updated-DistinctIds, still_open, now_closed,
  with_tx-KeepsFields, as_completed-KeepsFields, as_failed-KeepsFields,
}

-- What the transfers service relies on: a lock with a new key that is granted adds its amount, no lock
-- takes anything away, an unlock or a debit takes at most its amount, and a debit that is refused
-- takes nothing.
pub record KeepsFunds {X : Type 0} (client : AccountsClient X) : Type 0 where
  pub locked : Text → Text → X → ℕ
  pub is_used : Text → X → Bool
  pub lock_adds :
      (r : BalanceRequest) (x : X) (user currency : Text)
      → is_used r.idempotency_key x ≡ false
      → (client.lock_balance r x).0 ≡ none
      → locked user currency x + share r user currency
        ≤ locked user currency (client.lock_balance r x).1
  pub lock_keeps :
      (r : BalanceRequest) (x : X) (user currency : Text)
      → locked user currency x ≤ locked user currency (client.lock_balance r x).1
  pub unlock_takes :
      (r : BalanceRequest) (x : X) (user currency : Text)
      → locked user currency x
        ≤ locked user currency (client.unlock_balance r x).1 + share r user currency
  pub debit_takes :
      (r : BalanceRequest) (x : X) (user currency : Text)
      → locked user currency x
        ≤ locked user currency (client.debit_withdrawal_funds r x).1 + share r user currency
  pub debit_refused :
      (r : BalanceRequest) (x : X) (m : Text) (user currency : Text)
      → (client.debit_withdrawal_funds r x).0 ≡ some m
      → locked user currency x ≤ locked user currency (client.debit_withdrawal_funds r x).1

-- The transactions of the processor commit.
pub record Commits (env : ChainEnv) : Type 0 where
  pub completes : env.completes ≡ true
  pub fails : env.fails ≡ true

pub processing-is_open : (s : WithdrawalStatus) → same_status s processing ≡ true → is_open s ≡ true
processing-is_open pending h = cc
processing-is_open processing h = refl
processing-is_open completed h = cc
processing-is_open failed h = cc

module _ {X : Type 0} {client : AccountsClient X} (laws : KeepsFunds client) where
  -- The ids of the requests are distinct, and the open requests of a user in a currency need no more
  -- than what is locked.
  pub record IsBacked (w : World X) : Type 0 where
    pub distinct : DistinctIds w.db
    pub backed :
        (user currency : Text)
        → total_open user currency w.db ≤ laws.locked user currency w.accounts

  module _ (env : ChainEnv) (commits : Commits env) (x : Withdrawal) where
    pub complete-IsBacked :
        (hash : Text) (w : World X)
        → IsBacked w
        → Holds x w.db
        → IsBacked (complete_withdrawal client env x hash w)
    unfolding complete_withdrawal complete_withdrawal_row
    complete-IsBacked hash w v held =
        elim (Option-cases (client.debit_withdrawal_funds (debit_request env x) w.accounts).0) [
          | inr (m, refused) ↦ rw refused (record {
            distinct = v.distinct;
            backed = λ user currency. omega (
              arith,
              v.backed user currency,
              laws.debit_refused (debit_request env x) w.accounts m user currency refused,
            );
          })
          | inl done ↦
              rw (done, commits.completes)
                (record {
                  distinct =
                      updated-DistinctIds (as_completed env.now) (as_completed-KeepsFields env.now)
                        x w.db v.distinct;
                  backed = λ user currency. omega (
                    arith,
                    v.backed user currency,
                    laws.debit_takes (debit_request env x) w.accounts user currency,
                    now_closed (as_completed env.now) (as_completed-KeepsFields env.now) x w.db
                        (λ r. refl) v.distinct held user currency,
                  );
                })
        ]

    pub fail-IsBacked :
        (reason : Text) (w : World X)
        → IsBacked w
        → Holds x w.db
        → IsBacked (fail_withdrawal client env x reason w)
    unfolding fail_withdrawal fail_withdrawal_row
    fail-IsBacked reason w v held = rw commits.fails (record {
      distinct =
          updated-DistinctIds (as_failed env.now (take 255 reason))
            (as_failed-KeepsFields env.now (take 255 reason)) x w.db v.distinct;
      backed = λ user currency. omega (
        arith,
        v.backed user currency,
        laws.unlock_takes (unlock_request env x) w.accounts user currency,
        now_closed (as_failed env.now (take 255 reason))
            (as_failed-KeepsFields env.now (take 255 reason)) x w.db (λ r. refl) v.distinct held
            user currency,
      );
    })

    -- With its transaction's hash the row is still open.
    pub update-IsBacked :
        (hash : Text) (w : World X)
        → IsBacked w
        → Holds x w.db
        → IsBacked (record w { db = update_withdrawal_tx x.id hash 0 w.db })
          × Holds x (update_withdrawal_tx x.id hash 0 w.db)
    unfolding update_withdrawal_tx
    update-IsBacked hash w v held =
        let kept =
          still_open (with_tx hash 0) (with_tx-KeepsFields hash 0) x w.db (λ r live. live)
            v.distinct held in
        (
          record {
            distinct =
                updated-DistinctIds (with_tx hash 0) (with_tx-KeepsFields hash 0) x w.db v.distinct;
            backed = λ user currency. omega (arith, v.backed user currency, kept.1 user currency);
          },
          kept.0,
        )
