-- ===== src/Accounts/Repository/Invariant.antt =====
-- Every balance operation keeps the accounts in step with the ledger and above zero.
use ether_trade.Prelude.{
  ℕ, Bool, true, false, some, List, [], ◌∷◌, ◌++◌, ◌≡◌, ◌≢◌, ◌∙◌, refl, sym, inl, inr, Text, All,
  All-append, select_first, select_first-holds, select_first-miss, select_first-All, update_where,
  All-update_where, subst, Bool-cases, Option-cases, arith,
}
use ether_trade.Prelude.Int.{+ℤ-zero}
use ether_trade.Accounts.Types.{Account, LedgerTransaction, Database, Params, Env}
use ether_trade.Accounts.Repository.Queries.{
  find_by_user_and_currency, add_account, new_account, key_taken,
}
use ether_trade.Accounts.Repository.Spec.{
  Operation, perform, ledger_type, available_delta, locked_delta, changed, touches, applied, post,
  on_missing, creates, promised, promised_fresh, replay_of,
}
use ether_trade.Accounts.Repository.Refines.{perform-promised}
use ether_trade.Accounts.Repository.Books.{
  ledger_available, ledger_locked, ledger-zero, ledger_available-append, ledger_locked-append,
  Reconciles, Covered, UniqueIds, changed-available, changed-locked, changed-id, changed-Covered,
  touches-id, touches-covers,
}

-- An operation on the account `a`, and the ledger row `t` that it adds to `ts`.
module _ (op : Operation) (x now : ℕ) (a : Account) (ts : List LedgerTransaction)
    (t : LedgerTransaction) (owner : t.account_id ≡ a.id)
    (available : t.available_delta ≡ available_delta op x)
    (locked : t.locked_delta ≡ locked_delta op x) where
  touched-Reconciles :
      (r : Account) → r.id ≡ a.id → Reconciles ts r → Reconciles (ts ++ t ∷ []) (changed op x now r)
  touched-Reconciles r same h = record {
    available = ground (
      arith,
      ledger_available-append (changed op x now r).id ts t,
      changed-available op x now r,
      changed-id op x now r,
      h.available,
    );
    locked = ground (
      arith,
      ledger_locked-append (changed op x now r).id ts t,
      changed-locked op x now r,
      changed-id op x now r,
      h.locked,
    );
  }

  other-Reconciles : (r : Account) → r.id ≢ a.id → Reconciles ts r → Reconciles (ts ++ t ∷ []) r
  other-Reconciles r other h = record {
    available =
        ground (
          arith,
          ledger_available-append r.id ts t,
          +ℤ-zero (ledger_available r.id ts),
          h.available,
        );
    locked =
        ground (arith, ledger_locked-append r.id ts t, +ℤ-zero (ledger_locked r.id ts), h.locked);
  }

  -- No row with the id of `a` is left in `rest` once `a`'s own row has been met.
  rest-Reconciles :
      (rest : List Account)
      → All (λ r. r.id ≢ a.id) rest
      → All (Reconciles ts) rest
      → All (Reconciles (ts ++ t ∷ [])) (update_where (touches op x a) (changed op x now) rest)
  unfolding update_where
  rest-Reconciles [] d h = tt
  rest-Reconciles (r ∷ rest) d h = elim (Bool-cases (touches op x a r)) [
    | inl hit ↦ absurd (d.0 (touches-id op x a r hit))
    | inr miss ↦ rw miss (other-Reconciles r d.0 h.0, rest-Reconciles rest d.1 h.1)
  ]

  update-Reconciles :
      (rows : List Account) (y : Account)
      → UniqueIds rows
      → All (Reconciles ts) rows
      → select_first (touches op x a) rows ≡ some y
      → All (Reconciles (ts ++ t ∷ [])) (update_where (touches op x a) (changed op x now) rows)
  unfolding update_where
  update-Reconciles [] y u h e = tt
  update-Reconciles (r ∷ rest) y u h e = elim (Bool-cases (touches op x a r)) [
    | inl hit ↦
        let same = touches-id op x a r hit in
        rw hit (
          touched-Reconciles r same h.0,
          rest-Reconciles rest (subst (λ i. All (λ s. s.id ≢ i) rest) same u.0) h.1,
        )
    | inr miss ↦
        let later = sym (select_first-miss (touches op x a) r rest miss) ∙ e in
        let found = touches-id op x a y (select_first-holds (touches op x a) rest y later) in
        let apart : y.id ≢ r.id =
          select_first-All (λ s. s.id ≢ r.id) (touches op x a) rest y u.0 later in
        rw miss (
          other-Reconciles r (λ same. apart (found ∙ sym same)) h.0,
          update-Reconciles rest y u.1 h.1 later,
        )
  ]

update-UniqueIds :
    (op : Operation) (x now : ℕ) (a : Account) (rows : List Account)
    → UniqueIds rows
    → UniqueIds (update_where (touches op x a) (changed op x now) rows)
unfolding update_where
update-UniqueIds op x now a [] u = tt
update-UniqueIds op x now a (r ∷ rest) u =
    let apart =
      All-update_where (λ s. s.id ≢ r.id) (touches op x a) (changed op x now) rest
        (λ s hit ne e. ne (sym (changed-id op x now s) ∙ e)) u.0 in
    elim (Bool-cases (touches op x a r)) [
      | inl hit ↦ rw hit (
        subst
            (λ i.
              All {A = Account} (λ s. s.id ≢ i)
                (update_where (touches op x a) (changed op x now) rest))
            (sym (changed-id op x now r)) apart,
        update-UniqueIds op x now a rest u.1,
      )
      | inr miss ↦ rw miss (apart, update-UniqueIds op x now a rest u.1)
    ]

-- A database whose ids are unique, whose balances are the sums of its ledger, and none of which
-- is below zero.
pub record IsValid (d : Database) : Type 0 where
  pub unique : UniqueIds d.accounts
  pub reconciled : All (Reconciles d.ledger) d.accounts
  pub covered : All Covered d.accounts

applied-IsValid :
    (op : Operation) (env : Env) (p : Params) (a y : Account) (d : Database)
    → IsValid d
    → select_first (touches op p.amount a) d.accounts ≡ some y
    → IsValid (applied op env p a y d)
applied-IsValid op env p a y d v e =
    let x = p.amount in
    let owner : (changed op x env.now y).id ≡ a.id =
      changed-id op x env.now y ∙ touches-id op x a y (select_first-holds _ _ y e) in
    record {
      unique = update-UniqueIds op x env.now a d.accounts v.unique;
      reconciled =
          update-Reconciles op x env.now a d.ledger _ owner refl refl d.accounts y v.unique
            v.reconciled e;
      covered =
          All-update_where Covered (touches op x a) (changed op x env.now) d.accounts
            (λ r hit c. changed-Covered op x env.now r (touches-covers op x a r hit) c) v.covered;
    }

-- A new account is valid beside the others if its id is new to the accounts and the ledger.
pub record IsFresh (id : ℕ) (d : Database) : Type 0 where
  pub no_account : All (λ a. a.id ≢ id) d.accounts
  pub no_entry : All (λ t. t.account_id ≢ id) d.ledger

UniqueIds-append :
    (rows : List Account) (a : Account)
    → UniqueIds rows
    → All (λ r. r.id ≢ a.id) rows
    → UniqueIds (rows ++ a ∷ [])
UniqueIds-append [] a u h = (tt, tt)
UniqueIds-append (r ∷ rest) a u h = (
  All-append (λ s. s.id ≢ r.id) rest (a ∷ []) u.0 ((λ e. h.0 (sym e)), tt),
  UniqueIds-append rest a u.1 h.1,
)

pub add_account-IsValid :
    (env : Env) (user_id : ℕ) (currency : Text) (d : Database)
    → IsValid d
    → IsFresh env.new_id d
    → IsValid (add_account (new_account env user_id currency) d)
add_account-IsValid env user_id currency d v f =
    let zero_sums = ledger-zero env.new_id d.ledger f.no_entry in
    record {
      unique = UniqueIds-append d.accounts _ v.unique f.no_account;
      reconciled =
          All-append (Reconciles d.ledger) d.accounts _ v.reconciled
            (record { available = sym zero_sums.0; locked = sym zero_sums.1 }, tt);
      covered = All-append Covered d.accounts _ v.covered ((omega arith, omega arith), tt);
    }

-- What the other transactions do, and the id that is drawn, as a valid database needs them.
pub record IsSound (env : Env) (d : Database) : Type 0 where
  pub others : IsValid (env.while_locking d)
  pub others_insert : IsValid (env.before_insert (env.while_locking d))
  pub fresh : IsFresh env.new_id (env.before_insert (env.while_locking d))

post-IsValid :
    (op : Operation) (env : Env) (p : Params) (base : Database) (a : Account) (d : Database)
    → IsValid base
    → IsValid d
    → IsValid (post op env p base a d).1
post-IsValid op env p base a d vb v =
    elim (Option-cases (select_first (touches op p.amount a) d.accounts)) [
      | inl e ↦ rw (e, post) vb
      | inr (y, e) ↦ elim (Bool-cases (key_taken p d)) [
        | inl taken ↦ rw (e, taken, post) vb
        | inr free ↦ rw (e, free, post) (applied-IsValid op env p a y d v e)
      ]
    ]

on_missing-IsValid :
    (c : Bool) (op : Operation) (env : Env) (p : Params) (d : Database)
    → IsValid d
    → IsValid (env.before_insert d)
    → IsFresh env.new_id (env.before_insert d)
    → IsValid (on_missing c op env p d).1
on_missing-IsValid false op env p d v vb f = v
on_missing-IsValid true op env p d v vb f =
    let b = env.before_insert d in
    elim (Option-cases (find_by_user_and_currency p.user_id p.currency b)) [
      | inr (x, taken) ↦ rw taken vb
      | inl free ↦ rw free (
          post-IsValid op env p b (new_account env p.user_id p.currency) _ vb
            (add_account-IsValid env p.user_id p.currency b vb f))
    ]

-- Whatever a balance operation returns or throws, it leaves a valid database: ids unique, every
-- balance the sum of the account's ledger entries, and no balance below zero. The database was
-- valid, other transactions leave valid ones, and the id for a new account is unused.
pub perform-IsValid :
    (op : Operation) (env : Env) (p : Params) (d : Database)
    → IsValid d
    → IsSound env d
    → IsValid (perform op env p d).1
perform-IsValid op env p d v s =
    rw (perform-promised op env p d) (elim (Option-cases (replay_of (ledger_type op) p d)) [
      | inr (r, e) ↦ rw (e, promised) v
      | inl e ↦
          rw (e, promised)
            (elim (Option-cases
              (find_by_user_and_currency p.user_id p.currency (env.while_locking d))) [
                | inl missing ↦
                    rw (missing, promised_fresh)
                      (on_missing-IsValid (creates op) op env p _ s.others s.others_insert s.fresh)
                | inr (a, found) ↦
                    rw (found, promised_fresh) (post-IsValid op env p _ a _ s.others s.others)
              ])
    ])
