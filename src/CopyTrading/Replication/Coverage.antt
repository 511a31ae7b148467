-- ===== src/CopyTrading/Replication/Coverage.antt =====
-- Who gets a copy of a trade: handleMessage of
-- apps/copy-trading/src/consumers/master-trade-replication.consumer.ts when nothing fails.
use ether_trade.Prelude.{
  ℕ, ◌≡◌, refl, sym, ap, ◌∙◌, subst, true, Option, none, some, List, [], ◌∷◌, ◌++◌, All, Text,
  text_eq_refl, arith, Bool-cases, inl, inr, either_way, select_first, select_all,
}
use ether_trade.Common.Batches.{run_all, run_all-keeps}
use ether_trade.CopyTrading.Types.{CopySubscription, CopyOrderHistory, Database, HeldLock}
use ether_trade.CopyTrading.Repository.{
  copies, create_history, find_by_subscription_and_trade, is_some,
}
use ether_trade.CopyTrading.Calculator.{is_dust}
use ether_trade.CopyTrading.Replication.Lock.{acquire_lock, release_lock, is_owned}
use ether_trade.CopyTrading.Replication.Types.{
  ReplicationSideTask, Placed, placed, refused, OrdersClient, World, ReplicationEnv,
}
use ether_trade.CopyTrading.Replication.Follower.{
  target_quantity, placed_row, place_order, copy_trade, locked_copy, replicate_for_subscriber,
}
use ether_trade.CopyTrading.Replication.Messages.{follower_task}

-- The history has a row of the subscription for the trade.
abbrev pub HasCopy : ℕ → Text → Database → Type 0
HasCopy id trade d = is_some (find_by_subscription_and_trade id trade d) ≡ true

is_some-append :
    (id : ℕ) (trade : Text) (hs : List CopyOrderHistory) (h : CopyOrderHistory)
    → is_some (select_first (copies id trade) hs) ≡ true
    → is_some (select_first (copies id trade) (hs ++ h ∷ [])) ≡ true
unfolding select_first
is_some-append id trade [] h e = cc
is_some-append id trade (x ∷ hs) h e = ground (arith, is_some-append id trade hs h)

is_some-last :
    (id : ℕ) (trade : Text) (hs : List CopyOrderHistory) (h : CopyOrderHistory)
    → copies id trade h ≡ true
    → is_some (select_first (copies id trade) (hs ++ h ∷ [])) ≡ true
unfolding select_first
is_some-last id trade [] h e = rw e
is_some-last id trade (x ∷ hs) h e = ground (arith, is_some-last id trade hs h e)

create_history-keeps :
    (id : ℕ) (trade : Text) (h : CopyOrderHistory) (d : Database)
    → HasCopy id trade d
    → HasCopy id trade (create_history h d)
unfolding create_history find_by_subscription_and_trade
create_history-keeps id trade h d e =
    either_way (HasCopy id trade)
      (is_some (find_by_subscription_and_trade h.subscription_id h.master_trade_id d)) _ _ e
      (is_some-append id trade d.history h e)

create_history-HasCopy :
    (h : CopyOrderHistory) (d : Database)
    → HasCopy h.subscription_id h.master_trade_id (create_history h d)
unfolding create_history find_by_subscription_and_trade
create_history-HasCopy h d =
    elim (Bool-cases
      (is_some (find_by_subscription_and_trade h.subscription_id h.master_trade_id d))) [
        | inl there ↦ rw there there
        | inr new ↦ rw new (
            is_some-last h.subscription_id h.master_trade_id d.history h
              (ground (arith, text_eq_refl h.master_trade_id)))
      ]

create_history-subscriptions :
    (h : CopyOrderHistory) (d : Database) → (create_history h d).subscriptions ≡ d.subscriptions
unfolding create_history
create_history-subscriptions h d = ground arith

-- Valkey answers, and nobody else takes or loses a lock.
pub record IsQuiet (env : ReplicationEnv) : Type 0 where
  pub locks_answer : (follower : ℕ) → env.lock_answers follower ≡ true
  pub releases_answer : (follower : ℕ) → env.release_answers follower ≡ true
  pub untouched : (locks : List HeldLock) → env.locks_meanwhile locks ≡ locks

module _ {X : Type 0} (client : OrdersClient X) (env : ReplicationEnv) (task : ReplicationSideTask)
    (balance : ℕ) where
  module _ (sub : CopySubscription) (w : World X) where
    placed-copies :
        (quantity price : ℕ) (answer : Placed) (d : Database)
        → HasCopy sub.id task.trade_id
            (create_history (placed_row env sub task quantity price answer) d)
    placed-copies quantity price (placed order) d = create_history-HasCopy _ d
    placed-copies quantity price (refused message) d = create_history-HasCopy _ d

    copy_trade-HasCopy :
        HasCopy sub.id task.trade_id (copy_trade client env task balance sub w).service.db
    unfolding copy_trade place_order
    copy_trade-HasCopy =
        either_way (λ (z : World X). HasCopy sub.id task.trade_id z.service.db)
          (is_dust env.lots task.pair
            (target_quantity env.numbers sub task task.side balance w.service.db))
          _ _ (create_history-HasCopy _ w.service.db) (placed-copies _ _ _ w.service.db)

    copy_trade-keeps :
        (id : ℕ) (trade : Text)
        → HasCopy id trade w.service.db
        → HasCopy id trade (copy_trade client env task balance sub w).service.db
    unfolding copy_trade place_order
    copy_trade-keeps id trade h =
        either_way (λ (z : World X). HasCopy id trade z.service.db)
          (is_dust env.lots task.pair
            (target_quantity env.numbers sub task task.side balance w.service.db))
          _ _ (create_history-keeps id trade _ w.service.db h)
          (create_history-keeps id trade _ w.service.db h)

    copy_trade-rest :
        ((copy_trade client env task balance sub w).service.db.subscriptions
          ≡ w.service.db.subscriptions)
        × ((copy_trade client env task balance sub w).locks ≡ w.locks)
    unfolding copy_trade place_order
    copy_trade-rest =
        either_way
          (λ (z : World X).
            (z.service.db.subscriptions ≡ w.service.db.subscriptions) × (z.locks ≡ w.locks))
          (is_dust env.lots task.pair
            (target_quantity env.numbers sub task task.side balance w.service.db))
          _ _ (create_history-subscriptions _ w.service.db, refl)
          (create_history-subscriptions _ w.service.db, refl)

module _ {X : Type 0} (client : OrdersClient X) (env : ReplicationEnv) (task : ReplicationSideTask)
    (balance : ℕ) where
  locked-keeps :
      (id : ℕ) (trade : Text) (sub : CopySubscription) (w : World X)
      (lock : Option ℕ × List HeldLock)
      → HasCopy id trade w.service.db
      → HasCopy id trade (locked_copy client env task balance sub w lock).service.db
  locked-keeps id trade sub w (none, locks) h = h
  locked-keeps id trade sub w (some token, locks) h =
      copy_trade-keeps client env task balance sub (record w { locks = locks }) id trade h

  pub follower-keeps :
      (id : ℕ) (trade : Text) (sub : CopySubscription) (w : World X)
      → HasCopy id trade w.service.db
      → HasCopy id trade (replicate_for_subscriber client env task balance sub w).service.db
  unfolding replicate_for_subscriber
  follower-keeps id trade sub w h =
      locked-keeps id trade sub w
        (acquire_lock (env.lock_answers sub.follower_user_id) sub.follower_user_id
          (env.token sub.follower_user_id) w.locks)
        h

-- No lock is held, and the subscriptions are these.
abbrev pub Ready : {X : Type 0} → List CopySubscription → World X → Type 0
Ready subs w = (w.service.db.subscriptions ≡ subs) × (w.locks ≡ [])

module _ (follower token : ℕ) where
  acquire-free :
      acquire_lock true follower token []
      ≡ (some token, record { follower = follower; token = token } ∷ [])
  unfolding acquire_lock select_first
  acquire-free = refl

  release-own :
      (release_lock true follower token (record { follower = follower; token = token } ∷ [])).1 ≡ []
  unfolding release_lock select_first select_all
  release-own =
      let own : is_owned follower token (record { follower = follower; token = token }) ≡ true =
        ground arith in
      rw own

module _ {X : Type 0} (client : OrdersClient X) (env : ReplicationEnv) (quiet : IsQuiet env)
    (task : ReplicationSideTask) (balance : ℕ) where
  -- The world with the follower's lock.
  abbrev holding : CopySubscription → World X → World X
  holding sub w = record w {
    locks = record { follower = sub.follower_user_id; token = env.token sub.follower_user_id } ∷ [];
  }

  replicate-free :
      (sub : CopySubscription) (w : World X)
      → w.locks ≡ []
      → replicate_for_subscriber client env task balance sub w
        ≡ record (copy_trade client env task balance sub (holding sub w)) { locks = [] }
  unfolding replicate_for_subscriber
  replicate-free sub w free =
      let follower = sub.follower_user_id in
      let token = env.token sub.follower_user_id in
      let done = copy_trade client env task balance sub (holding sub w) in
      let taken : acquire_lock (env.lock_answers follower) follower token w.locks
          ≡ (some token, record { follower = follower; token = token } ∷ []) =
        ap (λ b. acquire_lock b follower token w.locks) (quiet.locks_answer follower)
        ∙ ap (acquire_lock true follower token) free
        ∙ acquire-free follower token in
      let given : (release_lock (env.release_answers follower) follower token
            (env.locks_meanwhile done.locks)).1
          ≡ [] =
        ap (λ b. (release_lock b follower token (env.locks_meanwhile done.locks)).1)
          (quiet.releases_answer follower)
        ∙ ap (λ ls. (release_lock true follower token ls).1)
            (quiet.untouched done.locks
              ∙ (copy_trade-rest client env task balance sub (holding sub w)).1)
        ∙ release-own follower token in
      ap (locked_copy client env task balance sub w) taken
      ∙ ap (λ ls. record done { locks = ls }) given

  pub follower-Ready :
      (subs : List CopySubscription) (sub : CopySubscription) (w : World X)
      → Ready subs w
      → Ready subs (replicate_for_subscriber client env task balance sub w)
  follower-Ready subs sub w r =
      subst (Ready subs) (sym (replicate-free sub w r.1))
        ((copy_trade-rest client env task balance sub (holding sub w)).0 ∙ r.0, refl)

  follower-HasCopy :
      (sub : CopySubscription) (w : World X)
      → w.locks ≡ []
      → HasCopy sub.id task.trade_id
          (replicate_for_subscriber client env task balance sub w).service.db
  follower-HasCopy sub w free =
      subst (λ (z : World X). HasCopy sub.id task.trade_id z.service.db)
        (sym (replicate-free sub w free))
        (copy_trade-HasCopy client env task balance sub (holding sub w))

  -- The followers one after another, with what holds of those before.
  pub followers-Covered :
      (subs : List CopySubscription) (todo : List CopySubscription) (w : World X)
      → Ready subs w
      → All
          (λ (sub : CopySubscription).
            HasCopy sub.id task.trade_id
              (run_all (follower_task client env task balance) todo w).1.service.db)
          todo
  unfolding run_all
  followers-Covered subs [] w r = tt
  followers-Covered subs (sub ∷ todo) w r =
      let w' = replicate_for_subscriber client env task balance sub w in
      (
        run_all-keeps (follower_task client env task balance)
            (λ (z : World X). HasCopy sub.id task.trade_id z.service.db) todo w'
            (λ x t h. follower-keeps client env task balance sub.id task.trade_id x t h)
            (follower-HasCopy sub w r.1),
        followers-Covered subs todo w' (follower-Ready subs sub w r),
      )
