-- ===== src/Transfers/Deposits/Once.antt =====
-- The credits of a deposit whose log comes again: `processDepositEvent` of
-- apps/transfers/src/transfers/processors/deposit-processor.service.ts.
use ether_trade.Prelude.{
  ℕ, ◌≡◌, refl, sym, ◌∙◌, subst, Bool, true, false, not, Option, none, some, List, [], ◌∷◌, ◌++◌,
  All-append, Text, text_eq_sound, text_eq_refl, sum_of-append, arith, Option-cases, inl, inr,
  either_way, select_first, select_first-append, select_first-holds,
}
use ether_trade.Prelude.Keys.{DistinctBy-append, select_first-before}
use ether_trade.Transfers.Types.{
  DepositStatus, confirmed, credited, deposit_pending, rejected_unsupported_token,
  rejected_below_minimum, WalletDeposit, OutboxEvent, Database, AccountsClient, World,
}
use ether_trade.Transfers.Units.{scale_evm_amount_to_platform, is_above_min_deposit_threshold}
use ether_trade.Transfers.Uuids.{bytes16_to_uuid}
use ether_trade.Transfers.Repository.{
  deposit_of, find_deposit_by_tx_hash, create_deposit, deposit_is, is_some,
}
use ether_trade.Transfers.Deposits.Processor.{
  DepositLog, DepositEnv, credit_key, insert_deposit, stored, confirmed_event, confirm_stored,
  confirm, with_token, with_user, retried, process_deposit_event, TokenConfig, resolve_token_config,
}
use ether_trade.Transfers.Deposits.Credits.{with_row, CreditsOnce, credited_for}
use ether_trade.Transfers.Deposits.Accounted.{
  is_credited, IsAccounted, append-DistinctHashes, credit-IsAccounted,
}

module _ {X : Type 0} {client : AccountsClient X} (laws : CreditsOnce client)
    (opening : Text → Text → ℕ) where
  abbrev IsFresh : WalletDeposit → World X → Type 0
  IsFresh x w =
      (find_deposit_by_tx_hash x.tx_hash w.db ≡ none)
      × (select_first (deposit_is x.id) w.db.deposits ≡ none)

  -- A new row for a hash that has none.
  insert-IsAccounted :
      (x : WalletDeposit) (events : List OutboxEvent) (w : World X)
      → IsAccounted laws opening w
      → IsFresh x w
      → is_credited x.status ≡ false
      → IsAccounted laws opening (with_row x events w)
  unfolding find_deposit_by_tx_hash
  insert-IsAccounted x events w v fresh waits =
      let unused = v.foreign x.tx_hash fresh.0 in
      record {
        ids = DistinctBy-append (λ (d : WalletDeposit). d.id) w.db.deposits x v.ids fresh.1;
        hashes = append-DistinctHashes w.db.deposits x v.hashes fresh.0;
        balance = λ user currency.
            let nothing : credited_for laws user currency w.accounts x ≡ 0 = rw unused refl in
            omega (
              arith,
              v.balance user currency,
              sum_of-append {0} (credited_for laws user currency w.accounts) w.db.deposits (x ∷ []),
              nothing,
            );
        foreign = λ hash free.
            v.foreign hash (select_first-before (deposit_of hash) w.db.deposits x free);
        marked =
            All-append
              (λ (d : WalletDeposit).
                is_credited d.status ≡ true → laws.is_used (credit_key d.tx_hash) w.accounts ≡ true)
              w.db.deposits (x ∷ []) v.marked ((λ is. cc (is, waits)), tt);
      }

  -- An insert, and what a row that is not credited leaves.
  inserted-IsAccounted :
      (P : Bool × World X → Type 0) (k : Option Database → Bool × World X) (env : DepositEnv)
      (x : WalletDeposit) (w : World X)
      → P (k none)
      → P (k (some (record w.db { deposits = w.db.deposits ++ x ∷ [] })))
      → P (k (insert_deposit env x w.db))
  unfolding create_deposit
  inserted-IsAccounted P k env x w failed done =
      either_way (λ (o : Option Database). P (k o)) (env.insert_fails x.tx_hash) _ _ failed
        (either_way (λ (o : Option Database). P (k o))
          (is_some (find_deposit_by_tx_hash x.tx_hash w.db)) _ _ failed done)

  module _ (env : DepositEnv) (p : DepositLog) where
    abbrev After : Bool × World X → Type 0
    After z = IsAccounted laws opening z.1

    stored-IsAccounted :
        (x : WalletDeposit) (w : World X)
        → IsAccounted laws opening w
        → IsFresh x w
        → is_credited x.status ≡ false
        → After (stored w (insert_deposit env x w.db))
    stored-IsAccounted x w v fresh waits =
        inserted-IsAccounted After (stored w) env x w v
          (insert-IsAccounted x w.db.outbox w v fresh waits)

    confirm-IsAccounted :
        (x : WalletDeposit) (w : World X)
        → IsAccounted laws opening w
        → IsFresh x w
        → is_credited x.status ≡ false
        → After (confirm client env x w)
    unfolding confirm find_deposit_by_tx_hash
    confirm-IsAccounted x w v fresh waits =
        let events = w.db.outbox ++ confirmed_event env x ∷ [] in
        let found : select_first (deposit_of x.tx_hash) (w.db.deposits ++ x ∷ []) ≡ some x =
          select_first-append (deposit_of x.tx_hash) w.db.deposits x fresh.0
          ∙ rw (text_eq_refl x.tx_hash) refl in
        inserted-IsAccounted After (confirm_stored client env x w) env x w v (
          credit-IsAccounted laws opening env x (with_row x events w)
            (insert-IsAccounted x events w v fresh waits) found)

    token-IsAccounted :
        (user : Text) (token : Option TokenConfig) (w : World X)
        → IsAccounted laws opening w
        → find_deposit_by_tx_hash p.tx_hash w.db ≡ none
        → select_first (deposit_is (env.new_id p.tx_hash)) w.db.deposits ≡ none
        → After (with_token client env p user w token)
    token-IsAccounted user none w v free fresh = stored-IsAccounted _ w v (free, fresh) refl
    token-IsAccounted user (some token) w v free fresh =
        either_way After
          (not (
            is_above_min_deposit_threshold
              (scale_evm_amount_to_platform env.numbers p.raw_amount token.decimals)))
          _ _ (stored-IsAccounted _ w v (free, fresh) refl)
          (confirm-IsAccounted _ w v (free, fresh) refl)

    user-IsAccounted :
        (user : Option Text) (w : World X)
        → IsAccounted laws opening w
        → find_deposit_by_tx_hash p.tx_hash w.db ≡ none
        → select_first (deposit_is (env.new_id p.tx_hash)) w.db.deposits ≡ none
        → After (with_user client env p w user)
    user-IsAccounted none w v free fresh = v
    user-IsAccounted (some user) w v free fresh =
        token-IsAccounted user (resolve_token_config env p.token_address) w v free fresh

    retried-IsAccounted :
        (e : WalletDeposit) (s : DepositStatus) (w : World X)
        → IsAccounted laws opening w
        → find_deposit_by_tx_hash e.tx_hash w.db ≡ some e
        → IsAccounted laws opening (retried client env e s w)
    retried-IsAccounted e confirmed w v found = credit-IsAccounted laws opening env e w v found
    retried-IsAccounted e credited w v found = v
    retried-IsAccounted e deposit_pending w v found = v
    retried-IsAccounted e rejected_unsupported_token w v found = v
    retried-IsAccounted e rejected_below_minimum w v found = v

    -- After the event of a log, the funds of each user in each currency are still the opening ones with
    -- the amounts of the deposits whose keys are used, each of them once, and a row that is marked as
    -- credited has been credited. It was so before, the drawn id is unused, and the accounts service
    -- credits once for a key; database and accounts service may fail anywhere.
    pub process_deposit_event-IsAccounted :
        (w : World X)
        → select_first (deposit_is (env.new_id p.tx_hash)) w.db.deposits ≡ none
        → IsAccounted laws opening w
        → IsAccounted laws opening (process_deposit_event client env p w).1
    unfolding process_deposit_event find_deposit_by_tx_hash
    process_deposit_event-IsAccounted w fresh v =
        elim (Option-cases (find_deposit_by_tx_hash p.tx_hash w.db)) [
          | inl free ↦ rw free (user-IsAccounted (bytes16_to_uuid p.user_bytes16) w v free fresh)
          | inr (e, found) ↦
              let same : e.tx_hash ≡ p.tx_hash =
                text_eq_sound e.tx_hash p.tx_hash
                  (select_first-holds (deposit_of p.tx_hash) w.db.deposits e found) in
              rw found (
                retried-IsAccounted e e.status w v (
                  subst (λ (h : Text). select_first (deposit_of h) w.db.deposits ≡ some e)
                    (sym same) found))
        ]
