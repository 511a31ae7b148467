-- ===== src/Transfers/Deposits/Missed.antt =====
-- What is in the tables after the logs of a range:
-- apps/transfers/src/transfers/blockchain/deposit-scanner.service.ts with
-- apps/transfers/src/transfers/processors/deposit-processor.service.ts.
use ether_trade.Prelude.{
  ◌≡◌, ◌≢◌, refl, sym, ◌∙◌, subst, Bool, true, false, not, Option, none, some, List, [], ◌∷◌, ◌++◌,
  Text, text_eq_refl, Option-cases, inl, inr, either_way, select_first, select_first-append,
}
use ether_trade.Prelude.Keys.{select_first-unseen, select_first-before}
use ether_trade.Transfers.Types.{
  DepositStatus, confirmed, credited, deposit_pending, rejected_unsupported_token,
  rejected_below_minimum, WalletDeposit, OutboxEvent, Database, AccountsClient, World,
}
use ether_trade.Transfers.Units.{scale_evm_amount_to_platform, is_above_min_deposit_threshold}
use ether_trade.Transfers.Uuids.{bytes16_to_uuid}
use ether_trade.Transfers.Repository.{
  deposit_of, find_deposit_by_tx_hash, create_deposit, deposit_is, as_credited, credit_deposit_row,
}
use ether_trade.Transfers.Deposits.Credits.{with_row}
use ether_trade.Transfers.Deposits.Processor.{
  DepositLog, DepositEnv, credit_request, credit_user_account, insert_deposit, stored,
  confirmed_event, confirm, with_token, with_user, retried, process_deposit_event, TokenConfig,
  resolve_token_config,
}

module _ {X : Type 0} where
  -- A row for the hash of a transaction.
  abbrev pub HasRow : Text → World X → Type 0
  HasRow hash w = find_deposit_by_tx_hash hash w.db ≢ none

  -- No row is lost, and the cursors stay.
  pub record Grows (w v : World X) : Type 0 where
    pub rows : (hash : Text) → HasRow hash w → HasRow hash v
    pub cursors : v.db.scanner ≡ w.db.scanner

  pub Grows-refl : (w : World X) → Grows w w
  Grows-refl w = record { rows = λ hash h. h; cursors = refl }

  pub Grows-trans : {w v u : World X} → Grows w v → Grows v u → Grows w u
  Grows-trans a b = record {
    rows = λ hash h. b.rows hash (a.rows hash h);
    cursors = b.cursors ∙ a.cursors;
  }

  with_row-Grows :
      (x : WalletDeposit) (events : List OutboxEvent) (w : World X) → Grows w (with_row x events w)
  unfolding find_deposit_by_tx_hash
  with_row-Grows x events w = record {
    rows = λ hash h none_now. h (select_first-before (deposit_of hash) w.db.deposits x none_now);
    cursors = refl;
  }

  with_row-HasRow :
      (x : WalletDeposit) (events : List OutboxEvent) (w : World X)
      → find_deposit_by_tx_hash x.tx_hash w.db ≡ none
      → HasRow x.tx_hash (with_row x events w)
  unfolding find_deposit_by_tx_hash
  with_row-HasRow x events w free =
      let found : select_first (deposit_of x.tx_hash) (w.db.deposits ++ x ∷ []) ≡ some x =
        select_first-append (deposit_of x.tx_hash) w.db.deposits x free
        ∙ rw (text_eq_refl x.tx_hash) refl in
      λ missing. cc (found, missing)

  -- The call goes through and loses nothing, and the hash has a row.
  record Covers (hash : Text) (w : World X) (z : Bool × World X) : Type 0 where
    through : z.0 ≡ true
    grows : Grows w z.1
    row : HasRow hash z.1

  module _ (client : AccountsClient X) (env : DepositEnv) where
    credit-Grows : (x : WalletDeposit) (w : World X) → Grows w (credit_user_account client env x w)
    unfolding credit_user_account credit_deposit_row find_deposit_by_tx_hash
    credit-Grows x w =
        let r = credit_request env x in
        let w' = record w { accounts = (client.credit_deposit_funds r w.accounts).1 } in
        let same : Grows w w' = record { rows = λ hash h. h; cursors = refl } in
        let marked : Grows w (record w' { db = credit_deposit_row env.now x.id w.db }) = record {
          rows = λ hash h none_now. h (
              select_first-unseen (deposit_is x.id) (as_credited env.now) (deposit_of hash)
                w.db.deposits (λ d. refl) none_now);
          cursors = refl;
        } in
        elim (Option-cases (client.credit_deposit_funds r w.accounts).0) [
          | inr (m, refused) ↦ rw refused same
          | inl done ↦ rw done (
              either_way (λ (d : Database). Grows w (record w' { db = d }))
                (env.update_fails x.tx_hash) _ _ same marked)
        ]

    retried-Grows :
        (x : WalletDeposit) (s : DepositStatus) (w : World X) → Grows w (retried client env x s w)
    retried-Grows x confirmed w = credit-Grows x w
    retried-Grows x credited w = Grows-refl w
    retried-Grows x deposit_pending w = Grows-refl w
    retried-Grows x rejected_unsupported_token w = Grows-refl w
    retried-Grows x rejected_below_minimum w = Grows-refl w

    module _ (inserts : (hash : Text) → env.insert_fails hash ≡ false) (p : DepositLog) where
      inserted :
          (x : WalletDeposit) (w : World X)
          → find_deposit_by_tx_hash x.tx_hash w.db ≡ none
          → insert_deposit env x w.db ≡ some (record w.db { deposits = w.db.deposits ++ x ∷ [] })
      unfolding create_deposit
      inserted x w free = rw (inserts x.tx_hash, free) refl

      stored-Covers :
          (x : WalletDeposit) (w : World X)
          → find_deposit_by_tx_hash x.tx_hash w.db ≡ none
          → Covers x.tx_hash w (stored w (insert_deposit env x w.db))
      stored-Covers x w free = rw (inserted x w free) (record {
        through = refl;
        grows = with_row-Grows x w.db.outbox w;
        row = with_row-HasRow x w.db.outbox w free;
      })

      confirm-Covers :
          (x : WalletDeposit) (w : World X)
          → find_deposit_by_tx_hash x.tx_hash w.db ≡ none
          → Covers x.tx_hash w (confirm client env x w)
      unfolding confirm
      confirm-Covers x w free =
          let events = w.db.outbox ++ confirmed_event env x ∷ [] in
          let later = credit-Grows x (with_row x events w) in
          rw (inserted x w free) (record {
            through = refl;
            grows = Grows-trans (with_row-Grows x events w) later;
            row = later.rows x.tx_hash (with_row-HasRow x events w free);
          })

      token-Covers :
          (user : Text) (token : Option TokenConfig) (w : World X)
          → find_deposit_by_tx_hash p.tx_hash w.db ≡ none
          → Covers p.tx_hash w (with_token client env p user w token)
      token-Covers user none w free = stored-Covers _ w free
      token-Covers user (some token) w free =
          either_way (Covers p.tx_hash w)
            (not (
              is_above_min_deposit_threshold
                (scale_evm_amount_to_platform env.numbers p.raw_amount token.decimals)))
            _ _ (stored-Covers _ w free) (confirm-Covers _ w free)

      user-Covers :
          (user : Option Text) (w : World X)
          → user ≢ none
          → find_deposit_by_tx_hash p.tx_hash w.db ≡ none
          → Covers p.tx_hash w (with_user client env p w user)
      user-Covers none w known free = absurd (known refl)
      user-Covers (some user) w known free =
          token-Covers user (resolve_token_config env p.token_address) w free

      -- The call goes through and loses nothing, and the hash has a row if the user can be read.
      pub record Passes (w : World X) (z : Bool × World X) : Type 0 where
        pub through : z.0 ≡ true
        pub grows : Grows w z.1
        pub row : bytes16_to_uuid p.user_bytes16 ≢ none → HasRow p.tx_hash z.1

      Covers-Passes : (w : World X) (z : Bool × World X) → Covers p.tx_hash w z → Passes w z
      Covers-Passes w z c = record { through = c.through; grows = c.grows; row = λ known. c.row }

      unread-Passes : (w : World X) → bytes16_to_uuid p.user_bytes16 ≡ none → Passes w (true, w)
      unread-Passes w unread = record {
        through = refl;
        grows = Grows-refl w;
        row = λ known. absurd (known unread);
      }

      user-Passes :
          (w : World X)
          → find_deposit_by_tx_hash p.tx_hash w.db ≡ none
          → Passes w (with_user client env p w (bytes16_to_uuid p.user_bytes16))
      user-Passes w free = elim (Option-cases (bytes16_to_uuid p.user_bytes16)) [
        | inl unread ↦
            subst (λ (u : Option Text). Passes w (with_user client env p w u)) (sym unread)
              (unread-Passes w unread)
        | inr (user, is) ↦
            Covers-Passes w _
              (user-Covers (bytes16_to_uuid p.user_bytes16) w (λ unread. cc (is, unread)) free)
      ]

      pub process-Passes : (w : World X) → Passes w (process_deposit_event client env p w)
      unfolding process_deposit_event
      process-Passes w = elim (Option-cases (find_deposit_by_tx_hash p.tx_hash w.db)) [
        | inl free ↦ rw free (user-Passes w free)
        | inr (e, found) ↦
            let later = retried-Grows e e.status w in
            rw found (record {
              through = refl;
              grows = later;
              row = λ known. later.rows p.tx_hash (λ missing. cc (found, missing));
            })
      ]
