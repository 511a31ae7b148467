-- ===== src/Transfers/Deposits/Complete.antt =====
-- What the polls have found: `pollBlocks` of
-- apps/transfers/src/transfers/blockchain/deposit-scanner.service.ts.
use ether_trade.Prelude.{
  ℕ, zero, suc, ◌+◌, ◌-◌, ◌*◌, ◌≤◌, ◌<◌, ◌≡◌, ◌≢◌, refl, sym, ap, ◌∙◌, subst, true, false, Option,
  none, some, List, [], ◌∷◌, ltb, leb, min, ==_iff, arith, Bool-cases, inl, inr, ◌⊎◌,
}
use ether_trade.Prelude.Rows.{In}
use ether_trade.Transfers.Types.{AccountsClient, World}
use ether_trade.Transfers.Uuids.{bytes16_to_uuid}
use ether_trade.Transfers.Repository.{
  last_scanned_in, get_last_scanned_block, upsert_scanned, find_deposit_by_tx_hash,
}
use ether_trade.Transfers.Deposits.Processor.{DepositLog}
use ether_trade.Transfers.Deposits.Scanner.{
  ScannerEnv, max_block_range, scan_range, set_cursor, scan_from, poll_from, poll_at, poll_blocks,
}
use ether_trade.Transfers.Deposits.Missed.{HasRow}
use ether_trade.Transfers.Deposits.Ranges.{Answers, Ranges, range-Ranges}

pub last_scanned_in-upsert_scanned :
    (chain block : ℕ) (cursors : List (ℕ × ℕ))
    → last_scanned_in chain (upsert_scanned chain block cursors) ≡ some block
unfolding last_scanned_in upsert_scanned
last_scanned_in-upsert_scanned chain block [] = ground (arith, ==_iff chain chain)
last_scanned_in-upsert_scanned chain block ((c, b) ∷ rest) =
    ground (arith, ==_iff chain chain, last_scanned_in-upsert_scanned chain block rest)

module _ {X : Type 0} (client : AccountsClient X) (env : ScannerEnv) where
  module _ (mined : List DepositLog) (answers : Answers env mined) where
    abbrev target : ℕ
    target = answers.height - env.confirmations

    -- Everything below the block `from`, where the next scan starts, has rows; the cursor says so.
    record IsScanned (from : ℕ) (w : World X) : Type 0 where
      cursor :
          ((from ≡ 0) × (get_last_scanned_block env.chain_id w.db ≡ none))
          ⊎ ((last : ℕ) × (from ≡ last + 1)
              × (get_last_scanned_block env.chain_id w.db ≡ some last))
      bounded : from ≤ target + 1
      found :
          (p : DepositLog)
          → In p mined
          → p.block_number < from
          → bytes16_to_uuid p.user_bytes16 ≢ none
          → HasRow p.tx_hash w

    seen-IsScanned :
        (from to : ℕ) (w v : World X)
        → to ≤ target
        → IsScanned from w
        → Ranges client env mined answers from to w (true, v)
        → IsScanned (to + 1) (set_cursor client env to v)
    unfolding find_deposit_by_tx_hash
    seen-IsScanned from to w v bounded before scanned = record {
      cursor = inr (to, refl, last_scanned_in-upsert_scanned env.chain_id to v.db.scanner);
      bounded = omega arith;
      found = λ p mem below known. elim (Bool-cases (ltb p.block_number from)) [
        | inl low ↦ scanned.grows.rows p.tx_hash (before.found p mem (ground arith) known)
        | inr high ↦ scanned.found p mem (ground arith) (ground (arith, below)) known
      ];
    }

    scan-IsScanned :
        (from : ℕ) (w : World X)
        → IsScanned from w
        → IsScanned (min (from + max_block_range) (target + 1)) (scan_from client env from target w)
    scan-IsScanned from w v = elim (Bool-cases (leb from target)) [
      | inr over ↦
          let end : min (from + max_block_range) (target + 1) ≡ from =
            ground (arith, v.bounded, over) in
          rw (over, end) v
      | inl within ↦
          let to = min (from + max_block_range - 1) target in
          let scanned = range-Ranges client env mined answers from to w in
          let next : min (from + max_block_range) (target + 1) ≡ to + 1 = ground (arith, within) in
          let z = scan_range client env from to w in
          rw (within, next, scanned.through)
            (seen-IsScanned from to w z.1 (ground arith) v
              (record { through = refl; grows = scanned.grows; found = scanned.found }))
    ]

    cursor-IsScanned :
        (from : ℕ) (w : World X)
        → IsScanned from w
        → IsScanned
            (min (from + max_block_range) (target + 1))
            (poll_from client env answers.height (get_last_scanned_block env.chain_id w.db) w)
    cursor-IsScanned from w v =
        let goal : ℕ → Type 0 = λ n.
          IsScanned (min (from + max_block_range) (target + 1)) (scan_from client env n target w) in
        elim v.cursor [
          | inl (start, unset) ↦ rw unset (subst goal start (scan-IsScanned from w v))
          | inr (last, start, set) ↦
              let above : ltb answers.height last ≡ false = ground (arith, v.bounded, start) in
              rw (set, above) (subst goal start (scan-IsScanned from w v))
        ]

    poll-IsScanned :
        (from : ℕ) (w : World X)
        → IsScanned from w
        → IsScanned (min (from + max_block_range) (target + 1)) (poll_blocks client env w)
    unfolding poll_blocks
    poll-IsScanned from w v =
        subst
          (λ (b : Option ℕ).
            IsScanned (min (from + max_block_range) (target + 1)) (poll_at client env b w))
          (sym answers.answers_height) (cursor-IsScanned from w v)

  -- The poller's loop.
  abbrev pub polls : ℕ → World X → World X
  polls zero w = w
  polls (suc n) w = polls n (poll_blocks client env w)

  module _ (mined : List DepositLog) (answers : Answers env mined) where
    polls-IsScanned :
        (n from : ℕ) (w : World X)
        → IsScanned mined answers from w
        → target mined answers < from + n * max_block_range
        → IsScanned mined answers (target mined answers + 1) (polls n w)
    polls-IsScanned zero from w v enough =
        let done : from ≡ target mined answers + 1 = ground (arith, v.bounded) in
        subst (λ (k : ℕ). IsScanned mined answers k w) done v
    polls-IsScanned (suc n) from w v enough =
        polls-IsScanned n (min (from + max_block_range) (target mined answers + 1))
          (poll_blocks client env w) (poll-IsScanned mined answers from w v) (ground arith)

    -- After n polls of a node that answers and of which n ranges hold the height without the
    -- confirmations, from a database without a cursor, a deposit in a block up to there has a row, and
    -- the cursor is there. The user of the deposit can be read, and no insert fails; credits and the
    -- updates of statuses may.
    pub polls-HasRow :
        (n : ℕ) (w : World X) (p : DepositLog)
        → get_last_scanned_block env.chain_id w.db ≡ none
        → answers.height - env.confirmations < n * max_block_range
        → In p mined
        → p.block_number ≤ answers.height - env.confirmations
        → bytes16_to_uuid p.user_bytes16 ≢ none
        → HasRow p.tx_hash (polls n w)
          × (get_last_scanned_block env.chain_id (polls n w).db
              ≡ some (answers.height - env.confirmations))
    polls-HasRow n w p unset enough mem within known =
        let start : IsScanned mined answers 0 w = record {
          cursor = inl (refl, unset);
          bounded = omega arith;
          found = λ q m low known. omega (arith, low);
        } in
        let end = polls-IsScanned n 0 w start (omega arith) in
        (
          end.found p mem (omega (arith, within)) known,
          elim end.cursor [
            | inl (none_scanned, e) ↦ absurd (omega (arith, none_scanned))
            | inr (last, is, set) ↦ set ∙ ap (λ (k : ℕ). some k) (omega (arith, is))
          ],
        )
