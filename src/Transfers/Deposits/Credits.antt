-- ===== src/Transfers/Deposits/Credits.antt =====
-- The credits of deposits: the calls of
-- apps/transfers/src/transfers/processors/deposit-processor.service.ts to the accounts service.
use ether_trade.Prelude.{
  ℕ, ◌+◌, ◌≡◌, refl, ap, ◌∙◌, subst, Bool, true, false, not, ◌&&◌, none, some, List, [], ◌∷◌, ◌++◌,
  All, Text, text_eq, if◌then◌else◌, sum_of, arith, Bool-cases, inl, inr, select_first,
}
use ether_trade.Transfers.Types.{
  World, share, OutboxEvent, WalletDeposit, BalanceRequest, AccountsClient,
}
use ether_trade.Transfers.Repository.{deposit_of}
use ether_trade.Transfers.Deposits.Processor.{credit_key}

-- What the transfers service relies on: a credit makes at most its own key used; it adds its amount if
-- it makes the key used, and nothing otherwise; and once it is answered without an error, the key is
-- used. An error may come before or after the credit.
pub record CreditsOnce {X : Type 0} (client : AccountsClient X) : Type 0 where
  pub funds : Text → Text → X → ℕ
  pub is_used : Text → X → Bool
  pub used_stays :
      (r : BalanceRequest) (x : X) (key : Text)
      → is_used key x ≡ true
      → is_used key (client.credit_deposit_funds r x).1 ≡ true
  pub other_keys :
      (r : BalanceRequest) (x : X) (key : Text)
      → text_eq key r.idempotency_key ≡ false
      → is_used key (client.credit_deposit_funds r x).1 ≡ is_used key x
  pub adds_once :
      (r : BalanceRequest) (x : X) (user currency : Text)
      → funds user currency (client.credit_deposit_funds r x).1
        ≡ funds user currency x
          + (if is_used r.idempotency_key (client.credit_deposit_funds r x).1
                && not (is_used r.idempotency_key x)
              then share r user currency
              else 0)
  pub done_used :
      (r : BalanceRequest) (x : X)
      → (client.credit_deposit_funds r x).0 ≡ none
      → is_used r.idempotency_key (client.credit_deposit_funds r x).1 ≡ true

abbrev pub worth : Text → Text → WalletDeposit → ℕ
worth user currency d =
    if text_eq user d.user_id && text_eq currency d.currency then d.amount else 0

-- The world with a new row.
abbrev pub with_row : {X : Type 0} → WalletDeposit → List OutboxEvent → World X → World X
with_row x events w = record w {
  db = record w.db { deposits = w.db.deposits ++ x ∷ []; outbox = events };
}

-- The hashes of the rows are distinct.
abbrev pub DistinctHashes : List WalletDeposit → Type 0
DistinctHashes [] = Unit
DistinctHashes (d ∷ ds) =
    All (λ (e : WalletDeposit). text_eq e.tx_hash d.tx_hash ≡ false) ds × DistinctHashes ds

pub credit_key-text_eq : (a b : Text) → text_eq (credit_key a) (credit_key b) ≡ text_eq a b
unfolding text_eq
credit_key-text_eq a b = refl

module _ {X : Type 0} {client : AccountsClient X} (laws : CreditsOnce client) where
  -- What has been credited for a row: its worth, if its key is used.
  abbrev pub credited_for : Text → Text → X → WalletDeposit → ℕ
  credited_for user currency x d =
      if laws.is_used (credit_key d.tx_hash) x then worth user currency d else 0

  abbrev pub total_credited : Text → Text → X → List WalletDeposit → ℕ
  total_credited user currency x ds = sum_of (credited_for user currency x) ds

  -- Rows of other hashes are not concerned.
  others-same :
      (r : BalanceRequest) (hash : Text) (x : X) (user currency : Text) (ds : List WalletDeposit)
      → r.idempotency_key ≡ credit_key hash
      → All (λ (d : WalletDeposit). text_eq d.tx_hash hash ≡ false) ds
      → total_credited user currency (client.credit_deposit_funds r x).1 ds
        ≡ total_credited user currency x ds
  others-same r hash x user currency [] key h = refl
  others-same r hash x user currency (d ∷ ds) key h =
      let other : laws.is_used (credit_key d.tx_hash) (client.credit_deposit_funds r x).1
          ≡ laws.is_used (credit_key d.tx_hash) x =
        laws.other_keys r x (credit_key d.tx_hash)
          (rw key (credit_key-text_eq d.tx_hash hash ∙ h.0)) in
      rw other (
        ap (λ n. credited_for user currency x d + n)
          (others-same r hash x user currency ds key h.1))

  head_sum :
      (user currency : Text) (e : WalletDeposit) (x y : X) (n : ℕ)
      → (laws.is_used (credit_key e.tx_hash) x ≡ true
          → laws.is_used (credit_key e.tx_hash) y ≡ true)
      → credited_for user currency y e + n
        ≡ credited_for user currency x e
          + n
          + (if laws.is_used (credit_key e.tx_hash) y && not (laws.is_used (credit_key e.tx_hash) x)
              then worth user currency e
              else 0)
  head_sum user currency e x y n stays = elim (Bool-cases (laws.is_used (credit_key e.tx_hash) x)) [
    | inl before ↦ rw (before, stays before) (omega arith)
    | inr not_before ↦ elim (Bool-cases (laws.is_used (credit_key e.tx_hash) y)) [
      | inl after ↦ rw (not_before, after) (omega arith)
      | inr not_after ↦ rw (not_before, not_after) (omega arith)
    ]
  ]

  -- A credit of a row adds its worth to what has been credited, if its key was not used before.
  pub credited-sum :
      (r : BalanceRequest) (e : WalletDeposit) (x : X) (user currency : Text)
      (ds : List WalletDeposit)
      → r.idempotency_key ≡ credit_key e.tx_hash
      → DistinctHashes ds
      → select_first (deposit_of e.tx_hash) ds ≡ some e
      → total_credited user currency (client.credit_deposit_funds r x).1 ds
        ≡ total_credited user currency x ds
          + (if laws.is_used (credit_key e.tx_hash) (client.credit_deposit_funds r x).1
                && not (laws.is_used (credit_key e.tx_hash) x)
              then worth user currency e
              else 0)
  unfolding select_first
  credited-sum r e x user currency [] key distinct found = cc
  credited-sum r e x user currency (d ∷ ds) key distinct found =
      elim (Bool-cases (text_eq d.tx_hash e.tx_hash)) [
        | inl hit ↦
            let same : d ≡ e = ground (arith, hit, found) in
            let rest = others-same r e.tx_hash x user currency ds key (
              subst
                (λ (z : WalletDeposit).
                  All (λ (y : WalletDeposit). text_eq y.tx_hash z.tx_hash ≡ false) ds)
                same distinct.0) in
            rw (rest, same)
              (head_sum user currency e x (client.credit_deposit_funds r x).1
                (total_credited user currency x ds) (laws.used_stays r x (credit_key e.tx_hash)))
        | inr miss ↦
            let other : laws.is_used (credit_key d.tx_hash) (client.credit_deposit_funds r x).1
                ≡ laws.is_used (credit_key d.tx_hash) x =
              laws.other_keys r x (credit_key d.tx_hash)
                (rw key (credit_key-text_eq d.tx_hash e.tx_hash ∙ miss)) in
            rw other
              (omega (arith, credited-sum r e x user currency ds key distinct.1 (rw miss at found)))
      ]
