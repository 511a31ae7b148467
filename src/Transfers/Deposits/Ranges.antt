-- ===== src/Transfers/Deposits/Ranges.antt =====
-- The logs of a range: `scanRange` of
-- apps/transfers/src/transfers/blockchain/deposit-scanner.service.ts.
use ether_trade.Prelude.{
  ℕ, ◌≤◌, ◌≡◌, ◌≢◌, refl, sym, subst, Bool, true, false, none, some, List, [], ◌∷◌, inl, inr, ◌⊎◌,
  Text,
}
use ether_trade.Prelude.Rows.{In}
use ether_trade.Transfers.Types.{AccountsClient, World}
use ether_trade.Transfers.Uuids.{bytes16_to_uuid}
use ether_trade.Transfers.Deposits.Processor.{DepositLog, process_deposit_event}
use ether_trade.Transfers.Deposits.Scanner.{ScannerEnv, process_logs, then_tokens, scan_range}
use ether_trade.Transfers.Deposits.Missed.{HasRow, Grows, Grows-refl, Grows-trans, process-Passes}

-- A node of some height that answers: the logs of a range are those that were mined in it.
pub record Answers (env : ScannerEnv) (mined : List DepositLog) : Type 0 where
  pub height : ℕ
  pub answers_height : env.block_number ≡ some height
  pub answers_logs :
      (from to : ℕ)
      → (natives : List DepositLog) × (tokens : List DepositLog) × (env.native_logs from to
          ≡ some natives)
        × (env.token_logs from to ≡ some tokens)
        × ((p : DepositLog)
            → In p mined
            → from ≤ p.block_number
            → p.block_number ≤ to
            → In p natives ⊎ In p tokens)
  pub inserts : (hash : Text) → env.deposits.insert_fails hash ≡ false

module _ {X : Type 0} (client : AccountsClient X) (env : ScannerEnv) where
  -- The call goes through and loses nothing, and the logs of the list with a readable user have rows.
  record Scans (logs : List DepositLog) (w : World X) (z : Bool × World X) : Type 0 where
    through : z.0 ≡ true
    grows : Grows w z.1
    found :
        (p : DepositLog) → In p logs → bytes16_to_uuid p.user_bytes16 ≢ none → HasRow p.tx_hash z.1

  module _ (inserts : (hash : Text) → env.deposits.insert_fails hash ≡ false) where
    logs-Scans :
        (logs : List DepositLog) (w : World X) → Scans logs w (process_logs client env logs w)
    unfolding process_logs
    logs-Scans [] w = record { through = refl; grows = Grows-refl w; found = λ p m. absurd m }
    logs-Scans (p ∷ ps) w =
        let z = process_deposit_event client env.deposits p w in
        let first = process-Passes client env.deposits inserts p w in
        let rest = logs-Scans ps z.1 in
        rw first.through (record {
          through = rest.through;
          grows = Grows-trans first.grows rest.grows;
          found = both first.row rest.grows rest.found;
        })
      where
        both :
            {v u : World X}
            → (bytes16_to_uuid p.user_bytes16 ≢ none → HasRow p.tx_hash v)
            → Grows v u
            → ((q : DepositLog)
                → In q ps
                → bytes16_to_uuid q.user_bytes16 ≢ none
                → HasRow q.tx_hash u)
            → (q : DepositLog) → In q (p ∷ ps)
            → bytes16_to_uuid q.user_bytes16 ≢ none
            → HasRow q.tx_hash u
        both {u = u} row grows later q (inl is) known =
            let here : bytes16_to_uuid p.user_bytes16 ≢ none =
              subst (λ (r : DepositLog). bytes16_to_uuid r.user_bytes16 ≢ none) is known in
            subst (λ (r : DepositLog). HasRow r.tx_hash u) (sym is)
              (grows.rows p.tx_hash (row here))
        both row grows later q (inr m) known = later q m known

  module _ (mined : List DepositLog) (answers : Answers env mined) where
    -- The logs of a range have rows after its scan.
    pub record Ranges (from to : ℕ) (w : World X) (z : Bool × World X) : Type 0 where
      pub through : z.0 ≡ true
      pub grows : Grows w z.1
      pub found :
          (p : DepositLog)
          → In p mined
          → from ≤ p.block_number
          → p.block_number ≤ to
          → bytes16_to_uuid p.user_bytes16 ≢ none
          → HasRow p.tx_hash z.1

    either_list :
        (ps qs : List DepositLog) (p : DepositLog) {v u : World X}
        → In p ps ⊎ In p qs
        → bytes16_to_uuid p.user_bytes16 ≢ none
        → ((q : DepositLog) → In q ps → bytes16_to_uuid q.user_bytes16 ≢ none → HasRow q.tx_hash v)
        → Grows v u
        → ((q : DepositLog) → In q qs → bytes16_to_uuid q.user_bytes16 ≢ none → HasRow q.tx_hash u)
        → HasRow p.tx_hash u
    either_list ps qs p (inl m) known a grows b = grows.rows p.tx_hash (a p m known)
    either_list ps qs p (inr m) known a grows b = b p m known

    then-Ranges :
        (from to : ℕ) (w : World X) (z : Bool × World X)
        → Scans (answers.answers_logs from to).0 w z
        → Ranges from to w (then_tokens client env from to z)
    then-Ranges from to w (false, u) first = cc (first.through)
    then-Ranges from to w (true, u) first =
        let (natives, tokens, has_natives, has_tokens, all) = answers.answers_logs from to in
        let second = logs-Scans answers.inserts tokens u in
        rw has_tokens (record {
          through = second.through;
          grows = Grows-trans first.grows second.grows;
          found = λ p mem low high known.
              either_list natives tokens p (all p mem low high) known first.found second.grows
                second.found;
        })

    pub range-Ranges :
        (from to : ℕ) (w : World X) → Ranges from to w (scan_range client env from to w)
    unfolding scan_range
    range-Ranges from to w =
        let (natives, tokens, has_natives, has_tokens, all) = answers.answers_logs from to in
        rw has_natives (
          then-Ranges from to w (process_logs client env natives w)
            (logs-Scans answers.inserts natives w))
