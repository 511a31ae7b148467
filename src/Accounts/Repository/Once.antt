-- ===== src/Accounts/Repository/Once.antt =====
-- Idempotency keys: a retry answers with the account and moves nothing, and a key that another
-- transaction has used is never used again.
use ether_trade.Prelude.{
  Bool, true, false, none, some, ◌≡◌, ◌≢◌, ◌⊎◌, refl, inl, inr, select_first, Bool-cases,
  Option-cases, arith,
}
use ether_trade.Transaction.{Outcome, value}
use ether_trade.Accounts.Types.{LedgerType, Account, Database, Params, MutationResult, ok, Env}
use ether_trade.Accounts.Repository.Queries.{
  find_ledger_by_idempotency_key, find_by_user_and_currency, add_account, new_account, key_taken,
}
use ether_trade.Accounts.Repository.Spec.{
  Operation, deposits, credits, locks, unlocks, debits, perform, ledger_type, changed, touches,
  applied, post, on_missing, creates, promised, promised_fresh, replay_of, refused,
}
use ether_trade.Accounts.Repository.Refines.{perform-promised}
use ether_trade.Accounts.Repository.Invariant.{IsValid, IsSound, add_account-IsValid}

key_free :
    (p : Params) (d : Database)
    → key_taken p d ≡ false
    → find_ledger_by_idempotency_key p.idempotency_key d ≡ none
key_free p d h = elim (Option-cases (find_ledger_by_idempotency_key p.idempotency_key d)) [
  | inl e ↦ e
  | inr (t, e) ↦ ground arith
]

-- What an operation finds once it holds its account: what others had committed, with a new account
-- of its own if there was none.
abbrev pub Started : Env → Params → Database → Database → Type 0
Started env p d before =
    (before ≡ env.while_locking d)
    ⊎ (before
        ≡ add_account (new_account env p.user_id p.currency)
            (env.before_insert (env.while_locking d)))

-- An operation that went through: on the row `row` of a database that it found unlocked.
pub record Posted (op : Operation) (env : Env) (p : Params) (d : Database)
    (z : Outcome MutationResult × Database) : Type 0 where
  pub account : Account
  pub row : Account
  pub before : Database
  pub before_valid : IsValid before
  pub key_free : key_taken p before ≡ false
  pub from : Started env p d before
  pub found : select_first (touches op p.amount account) before.accounts ≡ some row
  pub is_result :
      z ≡ (value (ok (changed op p.amount env.now row)), applied op env p account row before)

-- An operation that did not: it is no fresh success, and the database is as others left it.
pub record Unposted (env : Env) (d : Database) (z : Outcome MutationResult × Database)
    : Type 0 where
  pub not_ok : (u : Account) → z.0 ≢ value (ok u)
  pub left :
      (z.1 ≡ d) ⊎ ((z.1 ≡ env.while_locking d) ⊎ (z.1 ≡ env.before_insert (env.while_locking d)))

refused-ne-ok : (op : Operation) (a u : Account) → refused op a ≢ value (ok u)
refused-ne-ok deposits a u e = cc
refused-ne-ok credits a u e = cc
refused-ne-ok locks a u e = cc
refused-ne-ok unlocks a u e = cc
refused-ne-ok debits a u e = cc

post_ends :
    (op : Operation) (env : Env) (p : Params) (d base : Database) (a : Account) (d0 : Database)
    → IsValid d0
    → (base ≡ env.while_locking d) ⊎ (base ≡ env.before_insert (env.while_locking d))
    → Started env p d d0
    → Posted op env p d (post op env p base a d0) ⊎ Unposted env d (post op env p base a d0)
post_ends op env p d base a d0 v at from =
    elim (Option-cases (select_first (touches op p.amount a) d0.accounts)) [
      | inl e ↦ rw (e, post) (inr (record { not_ok = refused-ne-ok op a; left = inr at }))
      | inr (y, e) ↦ elim (Bool-cases (key_taken p d0)) [
        | inl taken ↦ rw (e, taken, post) (inr (record { not_ok = λ u q. cc; left = inr at }))
        | inr free ↦
            rw (e, free, post)
              (inl (record {
                account = a;
                row = y;
                before = d0;
                before_valid = v;
                key_free = free;
                from = from;
                found = e;
                is_result = refl;
              }))
      ]
    ]

on_missing_ends :
    (c : Bool) (op : Operation) (env : Env) (p : Params) (d : Database)
    → IsSound env d
    → Posted op env p d (on_missing c op env p (env.while_locking d))
      ⊎ Unposted env d (on_missing c op env p (env.while_locking d))
on_missing_ends false op env p d s = inr (record { not_ok = λ u q. cc; left = inr (inl refl) })
on_missing_ends true op env p d s =
    let b = env.before_insert (env.while_locking d) in
    elim (Option-cases (find_by_user_and_currency p.user_id p.currency b)) [
      | inr (x, taken) ↦ rw taken (inr (record { not_ok = λ u q. cc; left = inr (inr refl) }))
      | inl free ↦ rw free (
          post_ends op env p d b (new_account env p.user_id p.currency) _
            (add_account-IsValid env p.user_id p.currency b s.others_insert s.fresh) (inr refl)
            (inr refl))
    ]

replay-ne-ok :
    (type : LedgerType) (p : Params) (d : Database) (r : MutationResult)
    → replay_of type p d ≡ some r
    → (u : Account) → r ≢ ok u
replay-ne-ok type p d r e u q = ground arith

pub perform_ends :
    (op : Operation) (env : Env) (p : Params) (d : Database)
    → IsSound env d
    → Posted op env p d (perform op env p d) ⊎ Unposted env d (perform op env p d)
perform_ends op env p d s =
    rw (perform-promised op env p d) (elim (Option-cases (replay_of (ledger_type op) p d)) [
      | inr (r, e) ↦
          rw (e, promised)
            (inr (record {
              not_ok = λ u q. replay-ne-ok (ledger_type op) p d r e u (ground arith);
              left = inl refl;
            }))
      | inl e ↦
          rw (e, promised)
            (elim (Option-cases
              (find_by_user_and_currency p.user_id p.currency (env.while_locking d))) [
                | inl missing ↦
                    rw (missing, promised_fresh) (on_missing_ends (creates op) op env p d s)
                | inr (a, found) ↦
                    rw (found, promised_fresh)
                      (post_ends op env p d _ a _ s.others (inl refl) (inl refl))
              ])
    ])

-- A key that other transactions have used by the time that the row lock is granted is not used
-- again: the call reports no fresh success and writes nothing. The other transactions leave valid
-- databases in which the key is still used, and the id for a new account is unused.
pub perform_once :
    (op : Operation) (env : Env) (p : Params) (d : Database)
    → IsSound env d
    → key_taken p (env.while_locking d) ≡ true
    → key_taken p (env.before_insert (env.while_locking d)) ≡ true
    → Unposted env d (perform op env p d)
unfolding find_ledger_by_idempotency_key
perform_once op env p d s w b = elim (perform_ends op env p d s) [
  | inr rest ↦ rest
  | inl posted ↦ elim posted.from [
    | inl from ↦ ground (arith, posted.key_free)
    | inr from ↦ ground (arith, posted.key_free)
  ]
]
