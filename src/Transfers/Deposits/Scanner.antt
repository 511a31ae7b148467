-- ===== src/Transfers/Deposits/Scanner.antt =====
-- apps/transfers/src/transfers/blockchain/deposit-scanner.service.ts: one poll, without its timer.
use ether_trade.Prelude.{
  ℕ, ◌+◌, ◌-◌, Bool, true, false, Option, none, some, List, [], ◌∷◌, ltb, leb, min, if◌then◌else◌,
}
use ether_trade.Transfers.Types.{AccountsClient, World}
use ether_trade.Transfers.Repository.{get_last_scanned_block, update_last_scanned_block}
use ether_trade.Transfers.Deposits.Processor.{DepositLog, DepositEnv, process_deposit_event}

abbrev pub max_block_range : ℕ
max_block_range = 2000

-- What the chain answers: its height (nothing for an error), and the vault's logs in a range, of
-- ether and of tokens. Logs with missing arguments, which the code skips, are not among them.
pub record ScannerEnv : Type 0 where
  pub chain_id : ℕ
  pub confirmations : ℕ
  pub block_number : Option ℕ
  pub native_logs : ℕ → ℕ → Option (List DepositLog)
  pub token_logs : ℕ → ℕ → Option (List DepositLog)
  pub deposits : DepositEnv

module _ {X : Type 0} (client : AccountsClient X) (env : ScannerEnv) where
  -- The loop over the logs; an exception ends it.
  unfoldable pub process_logs : List DepositLog → World X → Bool × World X
  unfolding process_deposit_event
  process_logs [] w = (true, w)
  process_logs (p ∷ ps) w =
      let rest = process_logs ps (process_deposit_event client env.deposits p w).1 in
      if (process_deposit_event client env.deposits p w).0
      then rest
      else (false, (process_deposit_event client env.deposits p w).1)

  abbrev pub with_logs : Option (List DepositLog) → World X → Bool × World X
  with_logs none w = (false, w)
  with_logs (some logs) w = process_logs logs w

  -- `scanRange`
  abbrev pub then_tokens : ℕ → ℕ → Bool × World X → Bool × World X
  then_tokens from to (false, w) = (false, w)
  then_tokens from to (true, w) = with_logs (env.token_logs from to) w

  unfoldable pub scan_range : ℕ → ℕ → World X → Bool × World X
  unfolding process_logs
  scan_range from to w = then_tokens from to (with_logs (env.native_logs from to) w)

  abbrev pub set_cursor : ℕ → World X → World X
  set_cursor block w = record w { db = update_last_scanned_block env.chain_id block w.db }

  -- The cursor moves if the scan went through.
  abbrev pub after_scan : ℕ → Bool × World X → World X
  after_scan to (false, w) = w
  after_scan to (true, w) = set_cursor to w

  abbrev pub scan_from : ℕ → ℕ → World X → World X
  scan_from from target w =
      let to = min (from + max_block_range - 1) target in
      if leb from target then after_scan to (scan_range from to w) else w

  -- The height below the cursor means that the node was reset.
  abbrev pub poll_from : ℕ → Option ℕ → World X → World X
  poll_from height none w = scan_from 0 (height - env.confirmations) w
  poll_from height (some last) w =
      if ltb height last
      then scan_from 1 (height - env.confirmations) (set_cursor 0 w)
      else scan_from (last + 1) (height - env.confirmations) w

  abbrev pub poll_at : Option ℕ → World X → World X
  poll_at none w = w
  poll_at (some height) w = poll_from height (get_last_scanned_block env.chain_id w.db) w

  -- `pollBlocks`
  unfoldable pub poll_blocks : World X → World X
  unfolding scan_range
  poll_blocks w = poll_at env.block_number w
