-- ===== src/Transfers/Withdrawals/Worker.antt =====
-- The locked funds through a step of the worker: `processNextWithdrawal` of
-- apps/transfers/src/transfers/processors/withdrawal-processor.service.ts.
use ether_trade.Prelude.{
  ℕ, ◌≡◌, refl, true, not, ◌&&◌, Option, none, some, List, [], ◌∷◌, ◌++◌, Text, text, arith,
  Option-cases, inl, inr,
}
use ether_trade.Prelude.Rows.{In, In-select_all, In-found}
use ether_trade.Transfers.Types.{
  WithdrawalStatus, WithdrawalRequest, pending, processing, completed, failed, Database,
  AccountsClient, World,
}
use ether_trade.Transfers.Repository.{
  same_status, as_processing, Fetch, first_of, next_pending, lock_next_pending_withdrawal,
  updated_withdrawal, update_withdrawal_tx,
}
use ether_trade.Transfers.Withdrawals.Processor.{
  Withdrawal, of_row, ChainEnv, Sent, broadcast, not_sent, Receipt, success, reverted, no_receipt,
  after_receipt, after_update, after_send, payment, send_amount, evm_amount,
  execute_on_chain_withdrawal, process_next_withdrawal,
}
use ether_trade.Transfers.Withdrawals.Rows.{
  is_open, DistinctIds, Holds, updated-DistinctIds, still_open, as_processing-KeepsFields,
}
use ether_trade.Transfers.Withdrawals.Backing.{
  KeepsFunds, Commits, IsBacked, complete-IsBacked, fail-IsBacked, update-IsBacked,
}

pending-is_open : (s : WithdrawalStatus) → same_status s pending ≡ true → is_open s ≡ true
pending-is_open pending h = refl
pending-is_open processing h = cc
pending-is_open completed h = cc
pending-is_open failed h = cc

module _ {X : Type 0} {client : AccountsClient X} (laws : KeepsFunds client) where
  module _ (env : ChainEnv) (commits : Commits env) (x : Withdrawal) where
    receipt-IsBacked :
        (hash : Text) (w : World X) (r : Receipt)
        → IsBacked laws w
        → Holds x w.db
        → IsBacked laws (after_receipt client env x hash w r)
    receipt-IsBacked hash w success v held = complete-IsBacked laws env commits x hash w v held
    receipt-IsBacked hash w reverted v held =
        fail-IsBacked laws env commits x (text "Transaction reverted") w v held
    receipt-IsBacked hash w (no_receipt message) v held =
        fail-IsBacked laws env commits x message w v held

    updated-IsBacked :
        (hash : Text) (w : World X) (failure : Option Text)
        → IsBacked laws w
        → Holds x w.db
        → IsBacked laws (after_update client env x hash w failure)
    updated-IsBacked hash w (some message) v held =
        fail-IsBacked laws env commits x message w v held
    updated-IsBacked hash w none v held =
        let (v', held') = update-IsBacked laws env commits x hash w v held in
        receipt-IsBacked hash (record w { db = update_withdrawal_tx x.id hash 0 w.db })
          (env.receipt hash) v' held'

    sent-IsBacked :
        (amount : ℕ) (w : World X) (answer : Sent)
        → IsBacked laws w
        → Holds x w.db
        → IsBacked laws (after_send client env x amount w answer)
    sent-IsBacked amount w (not_sent message) v held =
        fail-IsBacked laws env commits x message w v held
    sent-IsBacked amount w (broadcast hash) v held =
        updated-IsBacked hash (record w { sent = w.sent ++ payment client env x hash amount ∷ [] })
          env.update_error (record { distinct = v.distinct; backed = v.backed }) held

    amount-IsBacked :
        (w : World X) (amount : Option ℕ)
        → IsBacked laws w
        → Holds x w.db
        → IsBacked laws (send_amount client env x w amount)
    amount-IsBacked w none v held = fail-IsBacked laws env commits x _ w v held
    amount-IsBacked w (some amount) v held =
        sent-IsBacked amount w (env.send x.currency x.destination_address amount) v held

    execute-IsBacked :
        (w : World X)
        → IsBacked laws w
        → Holds x w.db
        → IsBacked laws (execute_on_chain_withdrawal client env x w)
    unfolding execute_on_chain_withdrawal
    execute-IsBacked w v held = amount-IsBacked w (evm_amount client env x) v held

  -- What the database gives first is one of the rows.
  abbrev pub Picks : Fetch → Type 0
  Picks f =
      (rows : List WithdrawalRequest) (x : WithdrawalRequest)
      → first_of (f.oldest_first rows) ≡ some x
      → In x rows

  picked-Holds :
      (f : Fetch) (d : Database) (x : WithdrawalRequest)
      → Picks f
      → DistinctIds d
      → next_pending f d ≡ some x
      → Holds (of_row x) d
  unfolding next_pending
  picked-Holds f d x picks distinct found =
      let chosen =
        In-select_all
          (λ (r : WithdrawalRequest). same_status r.status pending && not (f.is_locked r))
          d.withdrawals x (picks _ x found) in
      let is : same_status x.status pending ≡ true = ground (arith, chosen.0) in
      (
        x,
        In-found (λ (r : WithdrawalRequest). r.id) d.withdrawals x distinct chosen.1,
        refl,
        pending-is_open x.status is,
      )

  pub process-IsBacked :
      (env : ChainEnv) (f : Fetch) (w : World X)
      → Commits env
      → Picks f
      → IsBacked laws w
      → IsBacked laws (process_next_withdrawal client env f w)
  unfolding process_next_withdrawal lock_next_pending_withdrawal
  process-IsBacked env f w commits picks v = elim (Option-cases (next_pending f w.db)) [
    | inl idle ↦ rw idle v
    | inr (x, found) ↦
        let held = picked-Holds f w.db x picks v.distinct found in
        let kept =
          still_open as_processing as_processing-KeepsFields (of_row x) w.db (λ r live. refl)
            v.distinct held in
        rw found (
          execute-IsBacked env commits (of_row x)
            (record w { db = updated_withdrawal x.id as_processing w.db })
            (record {
              distinct =
                  updated-DistinctIds as_processing as_processing-KeepsFields (of_row x) w.db
                    v.distinct;
              backed = λ user currency. omega (arith, v.backed user currency, kept.1 user currency);
            })
            kept.0)
  ]
