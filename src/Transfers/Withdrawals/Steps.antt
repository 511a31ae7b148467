-- ===== src/Transfers/Withdrawals/Steps.antt =====
-- All calls of the withdrawals together: apps/transfers/src/transfers/transfers.service.ts and
-- apps/transfers/src/transfers/processors/withdrawal-processor.service.ts.
use ether_trade.Prelude.{
  ℕ, ◌+◌, ◌≤◌, ◌≡◌, refl, sym, subst, false, not, ◌||◌, Option, none, some, [], ◌∷◌, ◌++◌, Text,
  text, sum_of-append, arith, Bool-cases, Option-cases, inl, inr, either_way, select_first,
}
use ether_trade.Prelude.Keys.{DistinctBy-append}
use ether_trade.Transfers.Types.{share, WithdrawalRequest, Database, AccountsClient, World}
use ether_trade.Transfers.Repository.{
  withdrawal_is, Fetch, create_withdrawal_request, find_withdrawal_by_idempotency, is_some,
}
use ether_trade.Transfers.Withdrawals.Request.{
  RequestEnv, RequestWithdrawalRequest, Validated, hold, new_request, validate, validate_rest,
  validate_amount, truncated, is_empty, is_supported, Result, ok, error, saved, save, after_lock,
  after_check, after_validation, request_withdrawal,
}
use ether_trade.Transfers.Withdrawals.Processor.{
  ChainEnv, process_next_withdrawal, recover_stuck_processing_withdrawals,
}
use ether_trade.Transfers.Withdrawals.Rows.{open_amount, total_open, DistinctIds}
use ether_trade.Transfers.Withdrawals.Backing.{KeepsFunds, Commits, IsBacked}
use ether_trade.Transfers.Withdrawals.Worker.{Picks, process-IsBacked}
use ether_trade.Transfers.Withdrawals.Invariant.{recover-IsBacked}

validate_rest-key :
    (env : RequestEnv) (r : RequestWithdrawalRequest) (amount : ℕ) (v : Validated)
    → validate_rest env r amount ≡ ok v
    → v.idempotency_key ≡ env.trim r.idempotency_key
validate_rest-key env r amount v h = ground arith

validate_amount-key :
    (env : RequestEnv) (r : RequestWithdrawalRequest) (amount : Option ℕ) (v : Validated)
    → validate_amount env r amount ≡ ok v
    → v.idempotency_key ≡ env.trim r.idempotency_key
validate_amount-key env r none v h = cc
validate_amount-key env r (some amount) v h = validate_rest-key env r amount v h

validate-key :
    (env : RequestEnv) (r : RequestWithdrawalRequest) (v : Validated)
    → validate env r ≡ ok v
    → v.idempotency_key ≡ env.trim r.idempotency_key
unfolding validate
validate-key env r v h =
    elim (Bool-cases (is_empty r.user_id || not (env.is_valid_uuid r.user_id))) [
      | inl bad ↦ cc (rw bad at h)
      | inr good ↦ elim (Bool-cases (not (is_supported (env.upper (env.trim r.currency))))) [
        | inl bad ↦ cc (rw (good, bad) at h)
        | inr fine ↦
            validate_amount-key env r (truncated env (env.parse r.amount)) v (rw (good, fine) at h)
      ]
    ]

module _ {X : Type 0} {client : AccountsClient X} (laws : KeepsFunds client)
    (env : RequestEnv) where
  abbrev Covers : Validated → World X → Type 0
  Covers v w =
      (user currency : Text)
      → total_open user currency w.db + share (hold (text "withdraw-lock:") v) user currency
        ≤ laws.locked user currency w.accounts

  undone-IsBacked :
      (v : Validated) (w : World X)
      → DistinctIds w.db
      → Covers v w
      → IsBacked laws (saved client env v w none).1
  undone-IsBacked v w distinct enough = record {
    distinct = distinct;
    backed = λ user currency. omega (
      arith,
      enough user currency,
      laws.unlock_takes (hold (text "withdraw-lock-compensate:") v) w.accounts user currency,
    );
  }

  done-IsBacked :
      (v : Validated) (w : World X)
      → DistinctIds w.db
      → select_first (withdrawal_is env.new_id) w.db.withdrawals ≡ none
      → Covers v w
      → IsBacked laws
          (saved client env v w
            (some (record w.db { withdrawals = w.db.withdrawals ++ new_request env v ∷ [] }))).1
  done-IsBacked v w distinct fresh enough = record {
    distinct =
        DistinctBy-append (λ (r : WithdrawalRequest). r.id) w.db.withdrawals (new_request env v)
          distinct fresh;
    backed = λ user currency. omega (
      arith,
      enough user currency,
      sum_of-append {0} (open_amount user currency) w.db.withdrawals (new_request env v ∷ []),
    );
  }

  -- With the lock's amount on top of what the open requests need.
  save-IsBacked :
      (v : Validated) (w : World X)
      → DistinctIds w.db
      → select_first (withdrawal_is env.new_id) w.db.withdrawals ≡ none
      → Covers v w
      → IsBacked laws (save client env v w).1
  unfolding save create_withdrawal_request
  save-IsBacked v w distinct fresh enough =
      either_way (λ (o : Option Database). IsBacked laws (saved client env v w o).1)
        env.database_fails _ _ (undone-IsBacked v w distinct enough)
        (either_way (λ (o : Option Database). IsBacked laws (saved client env v w o).1)
          (is_some (find_withdrawal_by_idempotency v.user_id v.idempotency_key w.db)) _ _
          (undone-IsBacked v w distinct enough) (done-IsBacked v w distinct fresh enough))

  lock-IsBacked :
      (v : Validated) (w : World X)
      → select_first (withdrawal_is env.new_id) w.db.withdrawals ≡ none
      → laws.is_used (text "withdraw-lock:" ++ v.idempotency_key) w.accounts ≡ false
      → IsBacked laws w
      → IsBacked laws
          (after_lock client env v w
            (client.lock_balance (hold (text "withdraw-lock:") v) w.accounts)).1
  lock-IsBacked v w fresh unused backed =
      let r = hold (text "withdraw-lock:") v in
      elim (Option-cases (client.lock_balance r w.accounts).0) [
        | inr (m, refused) ↦ rw refused (record {
          distinct = backed.distinct;
          backed = λ user currency.
              omega
                (arith, backed.backed user currency, laws.lock_keeps r w.accounts user currency);
        })
        | inl granted ↦ rw granted (
            save-IsBacked v (record w { accounts = (client.lock_balance r w.accounts).1 })
              backed.distinct fresh
              (λ user currency. omega (
                arith,
                backed.backed user currency,
                laws.lock_adds r w.accounts user currency unused granted,
              )))
      ]

  abbrev NewKey : Text → World X → Type 0
  NewKey key w = laws.is_used (text "withdraw-lock:" ++ key) w.accounts ≡ false

  check-IsBacked :
      (v : Validated) (w : World X) (existing : Option WithdrawalRequest)
      → select_first (withdrawal_is env.new_id) w.db.withdrawals ≡ none
      → NewKey v.idempotency_key w
      → IsBacked laws w
      → IsBacked laws (after_check client env v w existing).1
  check-IsBacked v w (some x) fresh unused backed = backed
  check-IsBacked v w none fresh unused backed = lock-IsBacked v w fresh unused backed

  validation-IsBacked :
      (z : Result Validated) (w : World X)
      → select_first (withdrawal_is env.new_id) w.db.withdrawals ≡ none
      → ((v : Validated) → z ≡ ok v → NewKey v.idempotency_key w)
      → IsBacked laws w
      → IsBacked laws (after_validation client env z w).1
  validation-IsBacked (error e) w fresh unused backed = backed
  validation-IsBacked (ok v) w fresh unused backed =
      check-IsBacked v w (find_withdrawal_by_idempotency v.user_id v.idempotency_key w.db) fresh
        (unused v refl) backed

  request-IsBacked :
      (r : RequestWithdrawalRequest) (w : World X)
      → select_first (withdrawal_is env.new_id) w.db.withdrawals ≡ none
      → NewKey (env.trim r.idempotency_key) w
      → IsBacked laws w
      → IsBacked laws (request_withdrawal client env r w).1
  unfolding request_withdrawal
  request-IsBacked r w fresh unused backed =
      validation-IsBacked (validate env r) w fresh
        (λ v h. subst (λ (k : Text). NewKey k w) (sym (validate-key env r v h)) unused) backed

-- A call of the withdrawals.
pub data Step : Type 0 where
  request : RequestEnv → RequestWithdrawalRequest → Step
  process : ChainEnv → Fetch → Step
  recover : ChainEnv → Step

module _ {X : Type 0} {client : AccountsClient X} (laws : KeepsFunds client) where
  abbrev pub after : Step → World X → World X
  after (request env r) w = (request_withdrawal client env r w).1
  after (process env f) w = process_next_withdrawal client env f w
  after (recover env) w = recover_stuck_processing_withdrawals client env w

  -- A request has a new key for its lock and draws an unused id; the processor's transactions commit
  -- and the database picks one of the rows.
  abbrev pub Allowed : Step → World X → Type 0
  Allowed (request env r) w =
      (select_first (withdrawal_is env.new_id) w.db.withdrawals ≡ none)
      × (laws.is_used (text "withdraw-lock:" ++ env.trim r.idempotency_key) w.accounts ≡ false)
  Allowed (process env f) w = Commits env × Picks laws f
  Allowed (recover env) w = Commits env

  -- Worlds that calls lead to.
  pub data Reach (w : World X) : World X → Type 0 where
    here : Reach w w
    next : {v : World X} (s : Step) → Reach w v → Allowed s v → Reach w (after s v)

  step-IsBacked :
      (s : Step) (w : World X) → Allowed s w → IsBacked laws w → IsBacked laws (after s w)
  step-IsBacked (request env r) w allowed v = request-IsBacked laws env r w allowed.0 allowed.1 v
  step-IsBacked (process env f) w allowed v = process-IsBacked laws env f w allowed.0 allowed.1 v
  step-IsBacked (recover env) w allowed v = recover-IsBacked laws env allowed w v

  -- After any number of requests, steps of the worker and recoveries, the ids are distinct, and what the
  -- open withdrawals of a user in a currency need is locked.
  pub Reach-IsBacked : {w v : World X} → IsBacked laws w → Reach w v → IsBacked laws v
  Reach-IsBacked b here = b
  Reach-IsBacked b (next {v = u} s r allowed) = step-IsBacked s u allowed (Reach-IsBacked b r)
