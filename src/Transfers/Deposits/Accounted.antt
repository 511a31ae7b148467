-- ===== src/Transfers/Deposits/Accounted.antt =====
-- The invariant of the deposits: apps/transfers/src/transfers/processors/deposit-processor.service.ts.
use ether_trade.Prelude.{
  ℕ, ◌+◌, ◌≡◌, refl, sym, ap, ◌∙◌, subst, Bool, true, false, none, some, List, [], ◌∷◌, ◌++◌, All,
  All-append, All-update_where, Text, text_eq, text_eq_sound, text_eq_refl, arith, Bool-cases,
  Option-cases, inl, inr, either_way, select_first, update_where,
}
use ether_trade.Prelude.Keys.{
  DistinctBy, DistinctBy-update_where, select_first-by_key, sum_of-unseen, select_first-unseen,
  All-update_one,
}
use ether_trade.Transfers.Types.{
  DepositStatus, confirmed, credited, deposit_pending, rejected_unsupported_token,
  rejected_below_minimum, WalletDeposit, Database, AccountsClient, World,
}
use ether_trade.Transfers.Repository.{
  deposit_of, find_deposit_by_tx_hash, deposit_is, as_credited, credit_deposit_row,
}
use ether_trade.Transfers.Deposits.Processor.{
  DepositEnv, credit_key, credit_request, credit_user_account,
}
use ether_trade.Transfers.Deposits.Credits.{
  CreditsOnce, DistinctHashes, credited_for, total_credited, credited-sum, credit_key-text_eq,
}

abbrev pub is_credited : DepositStatus → Bool
is_credited credited = true
is_credited confirmed = false
is_credited deposit_pending = false
is_credited rejected_unsupported_token = false
is_credited rejected_below_minimum = false

update-DistinctHashes :
    (id now : ℕ) (ds : List WalletDeposit)
    → DistinctHashes ds
    → DistinctHashes (update_where (deposit_is id) (as_credited now) ds)
unfolding update_where
update-DistinctHashes id now [] h = tt
update-DistinctHashes id now (d ∷ ds) h =
    let rest = update-DistinctHashes id now ds h.1 in
    let apart =
      All-update_where (λ (e : WalletDeposit). text_eq e.tx_hash d.tx_hash ≡ false) (deposit_is id)
        (as_credited now) ds (λ e hit ne. ne) h.0 in
    elim (Bool-cases (deposit_is id d)) [
      | inl hit ↦ rw hit (apart, rest)
      | inr miss ↦ rw miss (apart, rest)
    ]

text_eq-flip : (s t : Text) → text_eq s t ≡ false → text_eq t s ≡ false
text_eq-flip s t h = elim (Bool-cases (text_eq t s)) [
  | inl same ↦ ground (arith, text_eq_sound t s same, text_eq_refl s, h)
  | inr other ↦ other
]

-- A hash of no row is not the hash of a row.
missing :
    (hash : Text) (e : WalletDeposit) (ds : List WalletDeposit)
    → select_first (deposit_of hash) ds ≡ none
    → select_first (deposit_of e.tx_hash) ds ≡ some e
    → text_eq hash e.tx_hash ≡ false
missing hash e ds free found = elim (Bool-cases (text_eq hash e.tx_hash)) [
  | inr other ↦ other
  | inl same ↦
      let is : hash ≡ e.tx_hash = text_eq_sound hash e.tx_hash same in
      cc (subst (λ (h : Text). select_first (deposit_of h) ds ≡ none) is free, found)
]

pub append-DistinctHashes :
    (ds : List WalletDeposit) (x : WalletDeposit)
    → DistinctHashes ds
    → select_first (deposit_of x.tx_hash) ds ≡ none
    → DistinctHashes (ds ++ x ∷ [])
unfolding select_first
append-DistinctHashes [] x h free = (tt, tt)
append-DistinctHashes (d ∷ ds) x h free = elim (Bool-cases (text_eq d.tx_hash x.tx_hash)) [
  | inl same ↦ cc (rw same at free)
  | inr other ↦ (
    All-append (λ (e : WalletDeposit). text_eq e.tx_hash d.tx_hash ≡ false) ds (x ∷ []) h.0
        (text_eq-flip d.tx_hash x.tx_hash other, tt),
    append-DistinctHashes ds x h.1 (rw other at free),
  )
]

module _ {X : Type 0} {client : AccountsClient X} (laws : CreditsOnce client)
    (opening : Text → Text → ℕ) where
  -- Ids and hashes are distinct; the funds are the opening ones with what has been credited for the
  -- rows; a key is used only for a row; a row that is marked as credited has been credited.
  pub record IsAccounted (w : World X) : Type 0 where
    pub ids : DistinctBy (λ (d : WalletDeposit). d.id) w.db.deposits
    pub hashes : DistinctHashes w.db.deposits
    pub balance :
        (user currency : Text)
        → laws.funds user currency w.accounts
          ≡ opening user currency + total_credited laws user currency w.accounts w.db.deposits
    pub foreign :
        (hash : Text)
        → find_deposit_by_tx_hash hash w.db ≡ none
        → laws.is_used (credit_key hash) w.accounts ≡ false
    pub marked :
        All
          (λ (d : WalletDeposit).
            is_credited d.status ≡ true → laws.is_used (credit_key d.tx_hash) w.accounts ≡ true)
          w.db.deposits

  module _ (env : DepositEnv) (e : WalletDeposit) (w : World X) (v : IsAccounted w)
      (found : find_deposit_by_tx_hash e.tx_hash w.db ≡ some e) where
    abbrev answer : X
    answer = (client.credit_deposit_funds (credit_request env e) w.accounts).1

    -- What holds after the credit, whatever it answered, before the row is marked.
    answered-IsAccounted : IsAccounted (record w { accounts = answer })
    unfolding find_deposit_by_tx_hash
    answered-IsAccounted = record {
      ids = v.ids;
      hashes = v.hashes;
      balance = λ user currency.
          let sum =
            credited-sum laws (credit_request env e) e w.accounts user currency w.db.deposits refl
              v.hashes found in
          omega (
            arith,
            v.balance user currency,
            laws.adds_once (credit_request env e) w.accounts user currency,
            sum,
          );
      foreign = λ hash free.
          laws.other_keys (credit_request env e) w.accounts (credit_key hash)
            (credit_key-text_eq hash e.tx_hash ∙ missing hash e w.db.deposits free found)
          ∙ v.foreign hash free;
      marked = marked_stay w.db.deposits v.marked;
    }
      where
        marked_stay :
            (ds : List WalletDeposit)
            → All
                (λ (d : WalletDeposit).
                  is_credited d.status ≡ true
                  → laws.is_used (credit_key d.tx_hash) w.accounts ≡ true)
                ds
            → All
                (λ (d : WalletDeposit).
                  is_credited d.status ≡ true → laws.is_used (credit_key d.tx_hash) answer ≡ true)
                ds
        marked_stay [] h = tt
        marked_stay (d ∷ ds) h = (
          λ is. laws.used_stays (credit_request env e) w.accounts (credit_key d.tx_hash) (h.0 is),
          marked_stay ds h.1,
        )

    mark-IsAccounted :
        laws.is_used (credit_key e.tx_hash) w.accounts ≡ true
        → IsAccounted (record w { db = credit_deposit_row env.now e.id w.db })
    unfolding credit_deposit_row find_deposit_by_tx_hash
    mark-IsAccounted used =
        let by_id =
          select_first-by_key (λ (d : WalletDeposit). d.id) (deposit_of e.tx_hash) w.db.deposits e
            v.ids found in
        record {
          ids =
              DistinctBy-update_where (λ (d : WalletDeposit). d.id) (as_credited env.now)
                (λ d. refl) (deposit_is e.id) w.db.deposits v.ids;
          hashes = update-DistinctHashes e.id env.now w.db.deposits v.hashes;
          balance = λ user currency.
              v.balance user currency
              ∙ ap (λ n. opening user currency + n)
                  (sym (
                    sum_of-unseen (deposit_is e.id) (as_credited env.now)
                      (credited_for laws user currency w.accounts) w.db.deposits (λ d. refl)));
          foreign = λ hash free. v.foreign hash (
              select_first-unseen (deposit_is e.id) (as_credited env.now) (deposit_of hash)
                w.db.deposits (λ d. refl) free);
          marked =
              All-update_one
                (λ (d : WalletDeposit).
                  is_credited d.status ≡ true
                  → laws.is_used (credit_key d.tx_hash) w.accounts ≡ true)
                (λ (d : WalletDeposit). d.id) (as_credited env.now) e.id w.db.deposits e v.ids by_id
                (λ is. used) v.marked;
        }

  pub credit-IsAccounted :
      (env : DepositEnv) (e : WalletDeposit) (w : World X)
      → IsAccounted w
      → find_deposit_by_tx_hash e.tx_hash w.db ≡ some e
      → IsAccounted (credit_user_account client env e w)
  unfolding credit_user_account
  credit-IsAccounted env e w v found =
      let r = credit_request env e in
      let w' = record w { accounts = (client.credit_deposit_funds r w.accounts).1 } in
      let v' = answered-IsAccounted env e w v found in
      elim (Option-cases (client.credit_deposit_funds r w.accounts).0) [
        | inr (m, refused) ↦ rw refused v'
        | inl done ↦ rw done (
            either_way (λ (d : Database). IsAccounted (record w' { db = d }))
              (env.update_fails e.tx_hash) _ _ v'
              (mark-IsAccounted env e w' v' found (laws.done_used r w.accounts done)))
      ]
