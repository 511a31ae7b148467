-- ===== src/CopyTrading/Service/Allocation.antt =====
-- What createSubscription of apps/copy-trading/src/copy-trading.service.ts promises about the sum of a
-- follower's allocations.
use ether_trade.Prelude.{
  ℕ, ◌+◌, ◌≤◌, ◌≡◌, ◌⊎◌, inl, inr, refl, ap, ◌∙◌, false, Option, none, some, List, [], ◌∷◌, ◌==◌,
  ltb, if◌then◌else◌, sum_of, sum_of-append, arith, Bool-cases, Option-cases, All, ◌≢◌, subst,
  select_first, select_all,
}
use ether_trade.Prelude.Keys.{
  DistinctBy, select_first-by_key, select_first-updated, sum_of-update_where, sum_of-select_all,
}
use ether_trade.CopyTrading.Types.{
  active, CopySubscription, MasterTrader, Database, default_max_slippage,
}
use ether_trade.CopyTrading.Repository.{
  is_active_status, find_master, find_by_follower_and_master, find_active_by_follower,
  is_active_of_follower, follows, create_subscription_row, increment_copiers,
  reactivate_subscription, reactivated, subscription_is, find_subscription, is_some,
}
use ether_trade.CopyTrading.Service.{
  CreateSubscriptionRequest, current_allocated, is_same, is_subscribed, new_subscription,
  write_subscription, guard_allocation, create_subscription, usdt, or_default,
}
use ether_trade.CopyTrading.Caches.{
  State, Env, Result, ok, error, ServiceError, get_master_or_follower_balance,
}

-- What a subscription adds to the allocations of a follower.
abbrev pub allocation : ℕ → CopySubscription → ℕ
allocation follower s = if is_active_of_follower follower s then s.allocated_balance else 0

abbrev pub total_allocation : ℕ → Database → ℕ
total_allocation follower d = sum_of (allocation follower) d.subscriptions

-- The loop of the guard leaves out the row that is reactivated, and adds up the others.
counted : Option CopySubscription → CopySubscription → ℕ
counted existing s = if is_same existing s then 0 else s.allocated_balance

current_allocated-sum :
    (existing : Option CopySubscription) (rows : List CopySubscription)
    → current_allocated existing rows ≡ sum_of (counted existing) rows
unfolding current_allocated counted
current_allocated-sum existing [] = refl
current_allocated-sum existing (s ∷ rest) =
    ap (λ n. counted existing s + n) (current_allocated-sum existing rest)

abbrev guarded : ℕ → Option CopySubscription → List CopySubscription → ℕ
guarded follower existing rows =
    sum_of (λ s. if is_active_of_follower follower s then counted existing s else 0) rows

guard-sum :
    (follower : ℕ) (existing : Option CopySubscription) (d : Database)
    → current_allocated existing (find_active_by_follower follower d)
      ≡ guarded follower existing d.subscriptions
unfolding find_active_by_follower
guard-sum follower existing d =
    current_allocated-sum existing (select_all (is_active_of_follower follower) d.subscriptions)
    ∙ sum_of-select_all (counted existing) (is_active_of_follower follower) d.subscriptions

guarded-new :
    (follower : ℕ) (rows : List CopySubscription)
    → guarded follower none rows ≡ sum_of (allocation follower) rows
unfolding counted
guarded-new follower [] = refl
guarded-new follower (s ∷ rest) = ap (λ n. allocation follower s + n) (guarded-new follower rest)

guarded-apart :
    (follower : ℕ) (e : CopySubscription) (rows : List CopySubscription)
    → All (λ (s : CopySubscription). s.id ≢ e.id) rows
    → guarded follower (some e) rows ≡ sum_of (allocation follower) rows
unfolding counted
guarded-apart follower e [] h = refl
guarded-apart follower e (s ∷ rest) h = elim (Bool-cases (s.id == e.id)) [
  | inl same ↦ absurd (h.0 (ground arith))
  | inr other ↦ rw other (ap (λ n. allocation follower s + n) (guarded-apart follower e rest h.1))
]

-- Leaving out a row that is not active makes no difference.
guarded-off :
    (follower : ℕ) (e : CopySubscription) (rows : List CopySubscription)
    → DistinctBy (λ (s : CopySubscription). s.id) rows
    → select_first (subscription_is e.id) rows ≡ some e
    → is_active_status e.status ≡ false
    → guarded follower (some e) rows ≡ sum_of (allocation follower) rows
unfolding counted select_first
guarded-off follower e [] d found off = refl
guarded-off follower e (s ∷ rest) d found off = elim (Bool-cases (s.id == e.id)) [
  | inl same ↦
      let here : s ≡ e = ground arith in
      let apart : All (λ (t : CopySubscription). t.id ≢ e.id) rest =
        subst (λ (z : CopySubscription). All (λ (t : CopySubscription). t.id ≢ z.id) rest) here
          d.0 in
      let silent : is_active_status s.status ≡ false = rw here off in
      rw (same, silent) (ground (arith, guarded-apart follower e rest apart))
  | inr other ↦ rw other (
      ap (λ n. allocation follower s + n) (guarded-off follower e rest d.1 (rw other at found) off))
]

-- What the outcome of a call is: refused, with the database as it was, or a subscription with which
-- the active allocations of the follower are within the balance that was read.
abbrev pub Allocated : ℕ → ℕ → Database → Result CopySubscription × State → Type 0
Allocated follower available d z =
    ((e : ServiceError) × (z.0 ≡ error e) × (z.1.db ≡ d))
    ⊎ ((sub : CopySubscription) × (z.0 ≡ ok sub)
        × (sub.status ≡ active)
        × (total_allocation follower z.1.db ≤ available))

allocation-le :
    (follower : ℕ) (sub : CopySubscription) → allocation follower sub ≤ sub.allocated_balance
allocation-le follower sub = ground arith

allocation-inactive :
    (follower : ℕ) (sub : CopySubscription)
    → is_active_status sub.status ≡ false
    → allocation follower sub ≡ 0
allocation-inactive follower sub off = ground arith

module _ (env : Env) (r : CreateSubscriptionRequest) (m : MasterTrader) (s : State)
    (quiet : (d : Database) → env.meanwhile d ≡ d) (available : ℕ) where
  new-Allocated :
      guarded r.follower_user_id none s.db.subscriptions + r.allocated_balance ≤ available
      → Allocated r.follower_user_id available s.db (write_subscription env r m none s)
  unfolding write_subscription create_subscription_row increment_copiers
  new-Allocated within =
      rw (quiet s.db)
        (elim (Bool-cases
          (is_some (find_by_follower_and_master r.follower_user_id r.master_id s.db))) [
            | inl taken ↦ rw taken (inl (ServiceError.unique_violation, refl, refl))
            | inr free ↦ rw free (
                inr (
                  new_subscription env r,
                  refl,
                  refl,
                  omega (
                    arith,
                    guarded-new r.follower_user_id s.db.subscriptions,
                    sum_of-append {0} (allocation r.follower_user_id) s.db.subscriptions
                        (new_subscription env r ∷ []),
                    allocation-le r.follower_user_id (new_subscription env r),
                  ),
                ))
          ])

  abbrev renewed : CopySubscription → CopySubscription
  renewed =
      reactivated r.allocated_balance (or_default default_max_slippage r.max_slippage_percent)
        env.now

  old-Allocated :
      (e : CopySubscription)
      → DistinctBy (λ (t : CopySubscription). t.id) s.db.subscriptions
      → select_first (subscription_is e.id) s.db.subscriptions ≡ some e
      → is_active_status e.status ≡ false
      → guarded r.follower_user_id (some e) s.db.subscriptions + r.allocated_balance ≤ available
      → Allocated r.follower_user_id available s.db (write_subscription env r m (some e) s)
  unfolding write_subscription reactivate_subscription increment_copiers find_subscription
  old-Allocated e distinct found off within =
      let now =
        select_first-updated (λ (t : CopySubscription). t.id) renewed (λ t. refl) e.id
          s.db.subscriptions e found in
      rw (quiet s.db, now)
        (inr (
          renewed e,
          refl,
          refl,
          omega (
            arith,
            sum_of-update_where (λ (t : CopySubscription). t.id) renewed
                (allocation r.follower_user_id) e.id s.db.subscriptions e distinct found,
            guarded-off r.follower_user_id e s.db.subscriptions distinct found off,
            allocation-inactive r.follower_user_id e off,
            allocation-le r.follower_user_id (renewed e),
          ),
        ))

  write-Allocated :
      (existing : Option CopySubscription)
      → DistinctBy (λ (t : CopySubscription). t.id) s.db.subscriptions
      → find_by_follower_and_master r.follower_user_id r.master_id s.db ≡ existing
      → is_subscribed existing ≡ false
      → guarded r.follower_user_id existing s.db.subscriptions + r.allocated_balance ≤ available
      → Allocated r.follower_user_id available s.db (write_subscription env r m existing s)
  unfolding find_by_follower_and_master
  write-Allocated none distinct found off within = new-Allocated within
  write-Allocated (some e) distinct found off within =
      old-Allocated e distinct
        (select_first-by_key (λ (t : CopySubscription). t.id)
          (follows r.follower_user_id r.master_id) s.db.subscriptions e distinct found)
        off within

module _ (env : Env) (r : CreateSubscriptionRequest) (s : State)
    (quiet : (d : Database) → env.meanwhile d ≡ d)
    (distinct : DistinctBy (λ (t : CopySubscription). t.id) s.db.subscriptions) where
  abbrev balance : ℕ
  balance = (get_master_or_follower_balance env r.follower_user_id usdt s.cache).0

  guard-Allocated :
      (m : MasterTrader) (existing : Option CopySubscription)
      → find_by_follower_and_master r.follower_user_id r.master_id s.db ≡ existing
      → is_subscribed existing ≡ false
      → Allocated r.follower_user_id balance s.db (guard_allocation env r m existing s)
  unfolding guard_allocation
  guard-Allocated m existing found off =
      let sum = guard-sum r.follower_user_id existing s.db in
      let s' = record s {
        cache = (get_master_or_follower_balance env r.follower_user_id usdt s.cache).1;
      } in
      elim (Bool-cases (
        ltb balance (
          current_allocated existing (find_active_by_follower r.follower_user_id s.db)
          + r.allocated_balance))) [
            | inl above ↦ rw above (inl (ServiceError.allocation_exceeds_balance, refl, refl))
            | inr within ↦ rw within (
                write-Allocated env r m s' quiet balance existing distinct found off
                  (ground (arith, sum)))
          ]

  -- A createSubscription is refused and leaves the database as it was, or gives an active subscription
  -- with which the active allocations of the follower are within the balance that was read; nothing
  -- else is written between its checks and its write, and the ids of the subscriptions are distinct.
  pub create_subscription-Allocated :
      Allocated r.follower_user_id balance s.db (create_subscription env r s)
  unfolding create_subscription
  create_subscription-Allocated = elim (Option-cases (find_master r.master_id s.db)) [
    | inl missing ↦ rw missing (inl (ServiceError.master_not_found, refl, refl))
    | inr (m, found) ↦ rw found (elim (Bool-cases m.is_active) [
      | inr off ↦ rw off (inl (ServiceError.master_not_found, refl, refl))
      | inl on ↦ rw on (elim (Bool-cases (ltb r.allocated_balance m.min_deposit)) [
        | inl below ↦ rw below (inl (ServiceError.insufficient_deposit, refl, refl))
        | inr enough ↦
            let existing = find_by_follower_and_master r.follower_user_id r.master_id s.db in
            rw enough (elim (Bool-cases (is_subscribed existing)) [
              | inl again ↦ rw again (inl (ServiceError.subscription_already_exists, refl, refl))
              | inr first ↦ rw first (guard-Allocated m existing refl first)
            ])
      ])
    ])
  ]
