-- ===== src/Transfers/Withdrawals/Invariant.antt =====
-- The recovery of apps/transfers/src/transfers/processors/withdrawal-processor.service.ts against the
-- accounts service.
use ether_trade.Prelude.{
  ◌≢◌, refl, sym, Option, none, some, List, [], ◌∷◌, All, Text, text, arith, Option-cases, inl, inr,
  either_way, select_all, take,
}
use ether_trade.Prelude.Keys.{DistinctBy}
use ether_trade.Prelude.Rows.{In, In-select_all, In-found, DistinctBy-select_all}
use ether_trade.Transfers.Types.{WithdrawalRequest, Database, AccountsClient, World}
use ether_trade.Transfers.Repository.{
  as_completed, as_failed, is_stuck, find_processing_withdrawals_with_tx_hash,
  complete_withdrawal_row, fail_withdrawal_row,
}
use ether_trade.Transfers.Withdrawals.Processor.{
  Withdrawal, of_row, ChainEnv, Receipt, success, reverted, no_receipt, debit_request,
  complete_withdrawal, fail_withdrawal, recovered, recover_one, recover_all,
  recover_stuck_processing_withdrawals,
}
use ether_trade.Transfers.Withdrawals.Rows.{
  Holds, other-Holds, as_completed-KeepsFields, as_failed-KeepsFields,
}
use ether_trade.Transfers.Withdrawals.Backing.{
  KeepsFunds, Commits, IsBacked, complete-IsBacked, fail-IsBacked, processing-is_open,
}

All-both {κ} :
    {A : Type 0} (P Q R : A → Type κ) (xs : List A)
    → ((x : A) → P x → Q x → R x)
    → All P xs
    → All Q xs
    → All R xs
All-both P Q R [] f p q = tt
All-both P Q R (x ∷ xs) f p q = (f x p.0 q.0, All-both P Q R xs f p.1 q.1)

all_In : {A : Type 0} (P : A → Type 0) (xs : List A) → ((x : A) → In x xs → P x) → All P xs
all_In P [] f = tt
all_In P (x ∷ xs) f = (f x (inl refl), all_In P xs (λ y m. f y (inr m)))

module _ {X : Type 0} (client : AccountsClient X) (env : ChainEnv) (x y : Withdrawal)
    (apart : x.id ≢ y.id) where
  complete-other :
      (hash : Text) (w : World X)
      → Holds y w.db
      → Holds y (complete_withdrawal client env x hash w).db
  unfolding complete_withdrawal complete_withdrawal_row
  complete-other hash w held =
      elim (Option-cases (client.debit_withdrawal_funds (debit_request env x) w.accounts).0) [
        | inr (m, refused) ↦ rw refused held
        | inl done ↦ rw done (
            either_way (λ (d : Database). Holds y d) env.completes _ _
              (other-Holds (as_completed env.now) (as_completed-KeepsFields env.now) x w.db y apart
                held)
              held)
      ]

  fail-other :
      (reason : Text) (w : World X)
      → Holds y w.db
      → Holds y (fail_withdrawal client env x reason w).db
  unfolding fail_withdrawal fail_withdrawal_row
  fail-other reason w held =
      either_way (λ (d : Database). Holds y d) env.fails _ _
        (other-Holds (as_failed env.now (take 255 reason))
          (as_failed-KeepsFields env.now (take 255 reason)) x w.db y apart held)
        held

module _ {X : Type 0} {client : AccountsClient X} (laws : KeepsFunds client) where
  module _ (env : ChainEnv) (commits : Commits env) where
    recovered-IsBacked :
        (x : WithdrawalRequest) (hash : Text) (w : World X) (r : Receipt)
        → IsBacked laws w
        → Holds (of_row x) w.db
        → IsBacked laws (recovered client env x hash w r)
    recovered-IsBacked x hash w success v held =
        complete-IsBacked laws env commits (of_row x) hash w v held
    recovered-IsBacked x hash w reverted v held =
        fail-IsBacked laws env commits (of_row x) (text "Transaction reverted on-chain") w v held
    recovered-IsBacked x hash w (no_receipt message) v held = v

    recovered-other :
        (x : WithdrawalRequest) (y : Withdrawal) (hash : Text) (w : World X) (r : Receipt)
        → x.id ≢ y.id
        → Holds y w.db
        → Holds y (recovered client env x hash w r).db
    recovered-other x y hash w success apart held =
        complete-other client env (of_row x) y apart hash w held
    recovered-other x y hash w reverted apart held =
        fail-other client env (of_row x) y apart (text "Transaction reverted on-chain") w held
    recovered-other x y hash w (no_receipt message) apart held = held

    one-IsBacked :
        (x : WithdrawalRequest) (hash : Option Text) (w : World X)
        → IsBacked laws w
        → Holds (of_row x) w.db
        → IsBacked laws (recover_one client env x hash w)
    one-IsBacked x none w v held = v
    one-IsBacked x (some hash) w v held = recovered-IsBacked x hash w (env.receipt hash) v held

    one-other :
        (x : WithdrawalRequest) (hash : Option Text) (y : Withdrawal) (w : World X)
        → x.id ≢ y.id
        → Holds y w.db
        → Holds y (recover_one client env x hash w).db
    one-other x none y w apart held = held
    one-other x (some hash) y w apart held =
        recovered-other x y hash w (env.receipt hash) apart held

    all-IsBacked :
        (xs : List WithdrawalRequest) (w : World X)
        → DistinctBy (λ (x : WithdrawalRequest). x.id) xs
        → All (λ (x : WithdrawalRequest). Holds (of_row x) w.db) xs
        → IsBacked laws w
        → IsBacked laws (recover_all client env xs w)
    unfolding recover_all
    all-IsBacked [] w distinct held v = v
    all-IsBacked (x ∷ xs) w distinct held v =
        let w' = recover_one client env x x.tx_hash w in
        all-IsBacked xs w' distinct.1
          (All-both (λ (y : WithdrawalRequest). y.id ≢ x.id)
            (λ (y : WithdrawalRequest). Holds (of_row y) w.db)
            (λ (y : WithdrawalRequest). Holds (of_row y) w'.db) xs
            (λ y apart h. one-other x x.tx_hash (of_row y) w (λ e. apart (sym e)) h) distinct.0
            held.1)
          (one-IsBacked x x.tx_hash w v held.0)

    pub recover-IsBacked :
        (w : World X)
        → IsBacked laws w
        → IsBacked laws (recover_stuck_processing_withdrawals client env w)
    unfolding recover_stuck_processing_withdrawals find_processing_withdrawals_with_tx_hash
    recover-IsBacked w v =
        all-IsBacked (select_all is_stuck w.db.withdrawals) w
          (DistinctBy-select_all (λ (x : WithdrawalRequest). x.id) is_stuck w.db.withdrawals
            v.distinct)
          (all_In (λ (x : WithdrawalRequest). Holds (of_row x) w.db)
            (select_all is_stuck w.db.withdrawals)
            (λ x m.
              let chosen = In-select_all is_stuck w.db.withdrawals x m in
              (
                x,
                In-found (λ (r : WithdrawalRequest). r.id) w.db.withdrawals x v.distinct chosen.1,
                refl,
                processing-is_open x.status (ground (arith, chosen.0)),
              )))
          v
