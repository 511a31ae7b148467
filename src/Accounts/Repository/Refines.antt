-- ===== src/Accounts/Repository/Refines.antt =====
-- The transactions of the repository implement the plain specification of `Spec`.
use ether_trade.Prelude.{
  Bool, true, false, ◌&&◌, Option, none, some, ◌≡◌, ◌∙◌, ap, refl, inl, inr, if◌then◌else◌,
  select_first, Option-cases, Text, update_where-none, arith,
}
use ether_trade.Prelude.Int.{ℤ, pos, ◌+ℤ◌}
use ether_trade.Transaction.{
  in_failed_transaction, type_error, value, throw, Session, Tx, pure, ◌>>=◌, closed, then_on,
  bind_step,
}
use ether_trade.Accounts.Types.{
  LedgerType, Account, LedgerTransaction, Database, Params, MutationResult, Env, ok, not_found,
}
use ether_trade.Accounts.Repository.Queries.{
  find_by_user_and_currency, has_id, add_ledger, is_some, resolve_replay, concurrent_replay,
  record_ledger, ledger_row, new_account, add_account, set_accounts, find_ledger_by_idempotency_key,
  key_taken, lock_account, create_if_missing, lock_or_create_account,
}
use ether_trade.Accounts.Repository.Operations.{
  or_return, or_not_found, deposit_fresh, credit_deposit_fresh, lock_fresh, unlock_fresh,
  debit_withdrawal_fresh, or_null, post_credit, post_guarded, deposit, credit_deposit, lock, unlock,
  debit_withdrawal,
}
use ether_trade.Accounts.Repository.Spec.{
  Operation, deposits, credits, locks, unlocks, debits, perform, ledger_type, replay_of, post,
  promised, promised_fresh, creates,
}

abbrev session : Database → Database → Session Database
session b d = record { base = b; db = d; failed = false }

abbrev broken : Database → Database → Session Database
broken b d = record { base = b; db = d; failed = true }

resolve_replay-session :
    (type : LedgerType) (p : Params) (b d : Database)
    → resolve_replay p type (session b d) ≡ (value (replay_of type p d), session b d)
unfolding resolve_replay
resolve_replay-session type p b d = ground arith

-- The ledger row is written, or the session is broken and the handler's query fails in it.
record_ledger-session :
    (type : LedgerType) (t : LedgerTransaction) (p : Params) (b d : Database)
    → record_ledger p type t (session b d) ≡ (
        if key_taken p d
        then (throw in_failed_transaction, broken b d)
        else (value none, session b (add_ledger t d)))
unfolding record_ledger concurrent_replay resolve_replay
record_ledger-session type t p b d = ground arith

-- The two ways in which the update and the ledger row end, for any guard and change.
post_guarded-closed :
    (type : LedgerType) (guard : Account → Bool) (change : Account → Account) (x y : ℤ)
    (answer : MutationResult) (p : Params) (a : Account) (d : Database)
    → closed (post_guarded type guard change x y answer p a (session d d))
      ≡ (elim (select_first (λ r. has_id a.id r && guard r) d.accounts) [
        | none ↦ (value answer, d)
        | some r ↦ if key_taken p d then (throw in_failed_transaction, d) else (
          value (ok (change r)),
          add_ledger
              (ledger_row p type x y (or_null p.reference_id) (change r))
              (set_accounts (λ r. has_id a.id r && guard r) change d),
        )
      ])
unfolding post_guarded find_ledger_by_idempotency_key
post_guarded-closed type guard change x y answer p a d =
    let q : Account → Bool = λ r. has_id a.id r && guard r in
    elim (Option-cases (select_first q d.accounts)) [
      | inl e ↦ rw (e, update_where-none q change d.accounts e)
      | inr (r, e) ↦ rw e (
          bind_step
            (record_ledger p type (ledger_row p type x y (or_null p.reference_id) (change r)))
            (λ early. or_return early (pure (ok (change r)))) _ _
            (record_ledger-session type (ledger_row p type x y (or_null p.reference_id) (change r))
              p d (set_accounts q change d))
          ∙ ground arith)
    ]

post_credit-closed :
    (type : LedgerType) (reference : Option Text) (env : Env) (p : Params) (a : Account)
    (b d : Database)
    → let change : Account → Account = λ x. record x {
      available_balance = x.available_balance +ℤ pos p.amount;
      updated_at = env.now;
    } in
      closed (post_credit type reference env p a (session b d))
      ≡ (elim (select_first (has_id a.id) d.accounts) [
        | none ↦ (throw type_error, b)
        | some r ↦ if key_taken p d then (throw in_failed_transaction, b) else (
          value (ok (change r)),
          add_ledger
              (ledger_row p type (pos p.amount) (pos 0) reference (change r))
              (set_accounts (has_id a.id) change d),
        )
      ])
unfolding post_credit find_ledger_by_idempotency_key
post_credit-closed type reference env p a b d =
    let change : Account → Account = λ x. record x {
      available_balance = x.available_balance +ℤ pos p.amount;
      updated_at = env.now;
    } in
    elim (Option-cases (select_first (has_id a.id) d.accounts)) [
      | inl e ↦ rw e
      | inr (r, e) ↦ rw e (
          bind_step
            (record_ledger p type (ledger_row p type (pos p.amount) (pos 0) reference (change r)))
            (λ early. or_return early (pure (ok (change r)))) _ _
            (record_ledger-session type
              (ledger_row p type (pos p.amount) (pos 0) reference (change r)) p b
              (set_accounts (has_id a.id) change d))
          ∙ ground arith)
    ]

-- After the query for the idempotency key.
replayed-closed :
    (type : LedgerType) (p : Params) (rest : Tx Database MutationResult) (d : Database)
    → closed ((resolve_replay p type >>= λ r. or_return r rest) (session d d))
      ≡ (elim (replay_of type p d) [ some r ↦ (value r, d) | none ↦ closed (rest (session d d)) ])
replayed-closed type p rest d =
    bind_step (resolve_replay p type) (λ r. or_return r rest) _ _
      (resolve_replay-session type p d d)
    ∙ go (replay_of type p d)
  where
    go :
        (o : Option MutationResult)
        → closed (or_return o rest (session d d))
          ≡ (elim o [ some r ↦ (value r, d) | none ↦ closed (rest (session d d)) ])
    go none = refl
    go (some r) = refl

-- After the query for the account, where nothing is created.
located-closed :
    (env : Env) (p : Params) (rest : Account → Tx Database MutationResult) (d : Database)
    → closed ((lock_account env p >>= λ a. or_not_found a rest) (session d d))
      ≡ (elim (find_by_user_and_currency p.user_id p.currency (env.while_locking d)) [
        | none ↦ (value not_found, env.while_locking d)
        | some a ↦ closed (rest a (session (env.while_locking d) (env.while_locking d)))
      ])
unfolding lock_account
located-closed env p rest d = go (find_by_user_and_currency p.user_id p.currency d')
  where
    d' : Database
    d' = env.while_locking d

    go :
        (o : Option Account)
        → closed (or_not_found o rest (session d' d'))
          ≡ (elim o [ none ↦ (value not_found, d') | some a ↦ closed (rest a (session d' d')) ])
    go none = refl
    go (some a) = refl

-- A transaction is what is promised if its part after the query for the key is.
fresh-promised :
    (op : Operation) (env : Env) (p : Params) (d : Database) (fresh : Tx Database MutationResult)
    → closed (fresh (session d d)) ≡ promised_fresh op env p d
    → closed ((resolve_replay p (ledger_type op) >>= λ r. or_return r fresh) (session d d))
      ≡ promised op env p d
fresh-promised op env p d fresh h =
    replayed-closed (ledger_type op) p fresh d
    ∙ elim (Option-cases (replay_of (ledger_type op) p d)) [
      | inr (r, e) ↦ rw (e, promised)
      | inl e ↦ rw (e, promised) h
    ]

guarded-promised :
    (op : Operation) (env : Env) (p : Params) (d : Database)
    (rest : Account → Tx Database MutationResult)
    → creates op ≡ false
    → ((a : Account) (d' : Database) → closed (rest a (session d' d')) ≡ post op env p d' a d')
    → closed ((lock_account env p >>= λ a. or_not_found a rest) (session d d))
      ≡ promised_fresh op env p d
guarded-promised op env p d rest c h =
    located-closed env p rest d
    ∙ elim (Option-cases (find_by_user_and_currency p.user_id p.currency (env.while_locking d))) [
      | inl missing ↦ rw (missing, promised_fresh, c)
      | inr (a, found) ↦ rw (found, promised_fresh) (h a (env.while_locking d))
    ]

create_if_missing-session :
    (env : Env) (p : Params) (d : Database)
    → let b = env.before_insert d in
      let fresh = new_account env p.user_id p.currency in
      create_if_missing env p none (session d d) ≡ (
        if is_some (find_by_user_and_currency p.user_id p.currency b)
        then (throw in_failed_transaction, broken b b)
        else (value (some fresh), session b (add_account fresh b)))
unfolding create_if_missing
create_if_missing-session env p d = ground arith

-- After the query for the account, where one is created if there is none.
created-closed :
    (env : Env) (p : Params) (rest : Account → Tx Database MutationResult) (d : Database)
    → find_by_user_and_currency p.user_id p.currency (env.while_locking d) ≡ none
    → let b = env.before_insert (env.while_locking d) in
      let fresh = new_account env p.user_id p.currency in
      closed ((lock_or_create_account env p >>= λ a. or_not_found a rest) (session d d)) ≡ (
        if is_some (find_by_user_and_currency p.user_id p.currency b)
        then (throw in_failed_transaction, b)
        else closed (rest fresh (session b (add_account fresh b))))
unfolding lock_or_create_account lock_account
created-closed env p rest d missing =
    let d' = env.while_locking d in
    let b = env.before_insert d' in
    ap
      (λ o. closed (then_on (λ a. or_not_found a rest) (create_if_missing env p o (session d' d'))))
      missing
    ∙ ap (λ z. closed (then_on (λ a. or_not_found a rest) z)) (create_if_missing-session env p d')
    ∙ ground arith

found-closed :
    (env : Env) (p : Params) (rest : Account → Tx Database MutationResult) (d : Database)
    (a : Account)
    → find_by_user_and_currency p.user_id p.currency (env.while_locking d) ≡ some a
    → closed ((lock_or_create_account env p >>= λ o. or_not_found o rest) (session d d))
      ≡ closed (rest a (session (env.while_locking d) (env.while_locking d)))
unfolding lock_or_create_account lock_account create_if_missing
found-closed env p rest d a found =
    let d' = env.while_locking d in
    ap
      (λ o. closed (then_on (λ a. or_not_found a rest) (create_if_missing env p o (session d' d'))))
      found

credited-promised :
    (op : Operation) (env : Env) (p : Params) (d : Database)
    (rest : Account → Tx Database MutationResult)
    → creates op ≡ true
    → ((a : Account) (b d' : Database) → closed (rest a (session b d')) ≡ post op env p b a d')
    → closed ((lock_or_create_account env p >>= λ o. or_not_found o rest) (session d d))
      ≡ promised_fresh op env p d
credited-promised op env p d rest c h =
    elim (Option-cases (find_by_user_and_currency p.user_id p.currency (env.while_locking d))) [
      | inl missing ↦
          created-closed env p rest d missing
          ∙ rw (missing, promised_fresh, c) (rw (h (new_account env p.user_id p.currency)))
      | inr (a, found) ↦
          found-closed env p rest d a found
          ∙ rw (found, promised_fresh) (h a (env.while_locking d) (env.while_locking d))
    ]

-- Each balance operation, run as a transaction with its error handlers against any activity of
-- other transactions, returns or throws exactly what the specification promises, and leaves
-- exactly the database that it promises.
pub perform-promised :
    (op : Operation) (env : Env) (p : Params) (d : Database)
    → perform op env p d ≡ promised op env p d
unfolding deposit deposit_fresh credit_deposit credit_deposit_fresh lock lock_fresh unlock
    unlock_fresh debit_withdrawal debit_withdrawal_fresh
perform-promised deposits env p d =
    fresh-promised deposits env p d (deposit_fresh env p)
      (credited-promised deposits env p d _ refl (post_credit-closed _ _ env p))
perform-promised credits env p d =
    fresh-promised credits env p d (credit_deposit_fresh env p)
      (credited-promised credits env p d _ refl (post_credit-closed _ _ env p))
perform-promised locks env p d =
    fresh-promised locks env p d (lock_fresh env p)
      (guarded-promised locks env p d _ refl λ a d'. post_guarded-closed _ _ _ _ _ _ p a d')
perform-promised unlocks env p d =
    fresh-promised unlocks env p d (unlock_fresh env p)
      (guarded-promised unlocks env p d _ refl λ a d'. post_guarded-closed _ _ _ _ _ _ p a d')
perform-promised debits env p d =
    fresh-promised debits env p d (debit_withdrawal_fresh env p)
      (guarded-promised debits env p d _ refl λ a d'. post_guarded-closed _ _ _ _ _ _ p a d')
