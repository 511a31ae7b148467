-- ===== src/CopyTrading/Service/Copiers.antt =====
-- The invariant of apps/copy-trading/src/copy-trading.service.ts: the number of copiers of each master
-- is the number of its active subscriptions, and the map of active masters agrees with the rows.
use ether_trade.Prelude.{
  ℕ, ◌+◌, ◌-◌, ◌≡◌, ◌≢◌, refl, ◌∙◌, true, false, ◌||◌, some, List, [], ◌∷◌, ◌++◌, ◌==◌,
  if◌then◌else◌, All, sum_of, sum_of-append, arith, Bool-cases, inl, inr, select_first,
  update_where,
}
use ether_trade.Prelude.Keys.{DistinctBy, sum_of-update_where}
use ether_trade.CopyTrading.Types.{MasterTrader, CopySubscription, active, terminated}
use ether_trade.CopyTrading.Repository.{
  master_is, is_active_status, is_terminated, is_active_of_master, subscription_is, changed_copiers,
  reactivated, with_status,
}

-- Whether a subscription counts for a master.
abbrev pub copier : ℕ → CopySubscription → ℕ
copier master s = if is_active_of_master master s then 1 else 0

abbrev pub copiers : ℕ → List CopySubscription → ℕ
copiers master rows = sum_of (copier master) rows

abbrev pub Counted : List MasterTrader → List CopySubscription → Type 0
Counted ms rows = All (λ (m : MasterTrader). m.total_copiers ≡ copiers m.id rows) ms

-- `PAUSED` is never set.
abbrev pub NeverPaused : List CopySubscription → Type 0
NeverPaused rows =
    All (λ (s : CopySubscription). (is_active_status s.status || is_terminated s.status) ≡ true)
      rows

pub counted_up :
    (now master : ℕ) (old new : List CopySubscription) (ms : List MasterTrader)
    → ((k : ℕ) → copiers k new ≡ copiers k old + (if k == master then 1 else 0))
    → Counted ms old
    → Counted (update_where (master_is master) (changed_copiers (λ n. n + 1) now) ms) new
unfolding update_where
counted_up now master old new [] change h = tt
counted_up now master old new (m ∷ ms) change h =
    let rest = counted_up now master old new ms change h.1 in
    elim (Bool-cases (m.id == master)) [
      | inl hit ↦
          let here : copiers m.id new ≡ copiers m.id old + 1 = change m.id ∙ rw hit refl in
          rw hit (omega (arith, here), rest)
      | inr miss ↦
          let here : copiers m.id new ≡ copiers m.id old + 0 = change m.id ∙ rw miss refl in
          rw miss (omega (arith, here), rest)
    ]

pub counted_down :
    (now master : ℕ) (old new : List CopySubscription) (ms : List MasterTrader)
    → ((k : ℕ) → copiers k old ≡ copiers k new + (if k == master then 1 else 0))
    → Counted ms old
    → Counted (update_where (master_is master) (changed_copiers (λ n. n - 1) now) ms) new
unfolding update_where
counted_down now master old new [] change h = tt
counted_down now master old new (m ∷ ms) change h =
    let rest = counted_down now master old new ms change h.1 in
    elim (Bool-cases (m.id == master)) [
      | inl hit ↦
          let here : copiers m.id old ≡ copiers m.id new + 1 = change m.id ∙ rw hit refl in
          rw hit (omega (arith, here), rest)
      | inr miss ↦
          let here : copiers m.id old ≡ copiers m.id new + 0 = change m.id ∙ rw miss refl in
          rw miss (omega (arith, here), rest)
    ]

-- A new active subscription of the master.
pub copiers-append :
    (k : ℕ) (s : CopySubscription) (rows : List CopySubscription)
    → s.status ≡ active
    → copiers k (rows ++ s ∷ []) ≡ copiers k rows + (if k == s.master_id then 1 else 0)
copiers-append k s rows on = sum_of-append {0} (copier k) rows (s ∷ []) ∙ rw on (ground arith)

module _ (rows : List CopySubscription) (e : CopySubscription)
    (distinct : DistinctBy (λ (s : CopySubscription). s.id) rows)
    (found : select_first (subscription_is e.id) rows ≡ some e) where
  pub copiers-reactivated :
      (allocated slippage now k : ℕ)
      → is_active_status e.status ≡ false
      → copiers k (update_where (subscription_is e.id) (reactivated allocated slippage now) rows)
        ≡ copiers k rows + (if k == e.master_id then 1 else 0)
  copiers-reactivated allocated slippage now k off =
      let g = reactivated allocated slippage now in
      let change =
        sum_of-update_where (λ (s : CopySubscription). s.id) g (copier k) e.id rows e distinct
          found in
      ground (arith, change, off)

  pub copiers-terminated :
      (now k : ℕ)
      → is_active_status e.status ≡ true
      → copiers k rows
        ≡ copiers k (update_where (subscription_is e.id) (with_status terminated now) rows)
          + (if k == e.master_id then 1 else 0)
  copiers-terminated now k on =
      let change =
        sum_of-update_where (λ (s : CopySubscription). s.id) (with_status terminated now) (copier k)
          e.id rows e distinct found in
      ground (arith, change, on)

-- Nobody copies a master that no subscription names.
pub copiers-unnamed :
    (k : ℕ) (rows : List CopySubscription)
    → All (λ (s : CopySubscription). s.master_id ≢ k) rows
    → copiers k rows ≡ 0
copiers-unnamed k [] h = refl
copiers-unnamed k (s ∷ rows) h = ground (arith, copiers-unnamed k rows h.1)
