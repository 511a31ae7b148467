-- ===== src/Orders/Outbox/Retention.antt =====
-- apps/orders/src/outbox/outbox-retention.service.ts: the cleanup ends and deletes what it should.
use ether_trade.Prelude.{
  ℕ, zero, suc, ◌+◌, ◌*◌, ◌-◌, ◌<◌, false, not, some, List, [], ◌∷◌, ◌==◌, ◌≡◌, refl, ap, ◌∙◌,
  arith, Bool-cases, inl, inr, ==_iff, length, select_all,
}
use ether_trade.Orders.Outbox.Types.{OutboxEvent}
use ether_trade.Orders.Outbox.Repository.{
  expired, delete_published_events_older_than, clean, clean_published_events,
}

abbrev pub unexpired : ℕ → List OutboxEvent → List OutboxEvent
unexpired cutoff rows = select_all (λ e. not (expired cutoff e)) rows

delete_total :
    (cutoff limit : ℕ) (rows : List OutboxEvent)
    → length (delete_published_events_older_than cutoff limit rows).0
        + (delete_published_events_older_than cutoff limit rows).1
      ≡ length rows
unfolding delete_published_events_older_than
delete_total cutoff limit [] = refl
delete_total cutoff zero (e ∷ rows) = omega arith
delete_total cutoff (suc limit) (e ∷ rows) =
    let gone = delete_total cutoff limit rows in
    let stays = delete_total cutoff (suc limit) rows in
    elim (Bool-cases (expired cutoff e)) [
      | inl old ↦ rw old (omega arith)
      | inr young ↦ rw young (omega arith)
    ]

-- A batch takes only rows that have expired.
delete-unexpired :
    (cutoff limit : ℕ) (rows : List OutboxEvent)
    → unexpired cutoff (delete_published_events_older_than cutoff limit rows).0
      ≡ unexpired cutoff rows
unfolding delete_published_events_older_than select_all
delete-unexpired cutoff limit [] = refl
delete-unexpired cutoff zero (e ∷ rows) = refl
delete-unexpired cutoff (suc limit) (e ∷ rows) = elim (Bool-cases (expired cutoff e)) [
  | inl old ↦ rw old (delete-unexpired cutoff limit rows)
  | inr young ↦ rw (young, young) (ap (λ es. e ∷ es) (delete-unexpired cutoff (suc limit) rows))
]

-- A batch that is not full has taken them all.
delete_complete :
    (cutoff limit : ℕ) (rows : List OutboxEvent)
    → ((delete_published_events_older_than cutoff limit rows).1 == limit) ≡ false
    → (delete_published_events_older_than cutoff limit rows).0 ≡ unexpired cutoff rows
unfolding delete_published_events_older_than select_all
delete_complete cutoff limit [] short = refl
delete_complete cutoff zero (e ∷ rows) short = ground arith
delete_complete cutoff (suc limit) (e ∷ rows) short = elim (Bool-cases (expired cutoff e)) [
  | inl old ↦ rw old (delete_complete cutoff limit rows (ground (arith, short, old)))
  | inr young ↦
      rw young
        (ap (λ es. e ∷ es) (delete_complete cutoff (suc limit) rows (ground (arith, short, young))))
]

clean_lem :
    (fuel cutoff : ℕ) (rows : List OutboxEvent) (total : ℕ)
    → length rows < fuel
    → clean fuel cutoff rows total
      ≡ some (unexpired cutoff rows, total + length rows - length (unexpired cutoff rows))
unfolding clean
clean_lem zero cutoff rows total enough = ground arith
clean_lem (suc fuel) cutoff rows total enough =
    let kept = (delete_published_events_older_than cutoff 1000 rows).0 in
    let deleted = (delete_published_events_older_than cutoff 1000 rows).1 in
    let counted = delete_total cutoff 1000 rows in
    elim (Bool-cases (deleted == 1000)) [
      | inl full ↦
          let is_full = (==_iff deleted 1000).0 full in
          rw full (
            clean_lem fuel cutoff kept (total + deleted) (omega arith)
            ∙ (let sum : total + deleted + length kept ≡ total + length rows = omega arith in
                rw (delete-unexpired cutoff 1000 rows, sum) refl))
      | inr short ↦
          let done = delete_complete cutoff 1000 rows short in
          let left : length kept ≡ length (unexpired cutoff rows) = ap length done in
          let count : total + deleted ≡ total + length rows - length (unexpired cutoff rows) =
            omega arith in
          rw (short, done) (ap (λ n. some (unexpired cutoff rows, n)) count)
    ]

-- The cleanup ends, with the fuel that the model gives it, and leaves the events that are not
-- published or not older than 48 hours, in their order; what it counts is the others.
pub clean_published_events_lem :
    (now : ℕ) (rows : List OutboxEvent)
    → clean_published_events now rows ≡ (
        let kept = unexpired (now - 48 * 60 * 60 * 1000) rows in
        some (kept, length rows - length kept))
unfolding clean_published_events
clean_published_events_lem now rows =
    let kept = unexpired (now - 48 * 60 * 60 * 1000) rows in
    let from_zero : 0 + length rows ≡ length rows = omega arith in
    clean_lem (length rows + 1) (now - 48 * 60 * 60 * 1000) rows 0 (omega arith)
    ∙ ap (λ n. some (kept, n - length kept)) from_zero
