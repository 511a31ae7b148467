-- ===== src/CopyTrading/Replication/Positions.antt =====
-- What the followers hold: the completed copies of
-- apps/copy-trading/src/consumers/master-trade-replication.consumer.ts, per subscription and pair.
use ether_trade.Prelude.{
  ℕ, ◌+◌, ◌≤◌, ◌≡◌, refl, sym, subst, Bool, true, false, Option, none, some, List, [], ◌∷◌, ◌++◌,
  Text, text_eq_sound, text_eq_refl, if◌then◌else◌, arith, Bool-cases, Option-cases, inl, inr,
  either_way,
}
use ether_trade.Common.Batches.{execute_in_batches, execute_in_batches-keeps}
use ether_trade.Orders.Types.{OrderSide, buy, sell}
use ether_trade.CopyTrading.Types.{CopySubscription, CopyOrderHistory, Database, HeldLock}
use ether_trade.CopyTrading.Repository.{
  counts_for, total_quantity, get_subscription_position, create_history,
  find_by_subscription_and_trade, is_some, mark_processed, is_processed, find_active_by_master,
}
use ether_trade.CopyTrading.Calculator.{Rounds, calculate_sub_position, is_dust}
use ether_trade.CopyTrading.Calculator.Bounds.{
  calculate_sell_quantity-le, calculate_sub_position_lem,
}
use ether_trade.CopyTrading.Replication.Types.{
  ReplicationSideTask, Placed, placed, refused, OrdersClient, World, ReplicationEnv,
}
use ether_trade.CopyTrading.Replication.Follower.{
  target_quantity, placed_row, place_order, copy_trade, locked_copy, replicate_for_subscriber,
}
use ether_trade.CopyTrading.Replication.Messages.{
  handle_message, went_through, follower_task, replicate_to, replicate_master_trade,
  replicate_tasks, marked, replicate_new, handle_envelope, side_tasks, batch_size, balance_currency,
  Replicated,
}
use ether_trade.Accounts.Settlement.Messages.{Message, Envelope, or_else, is_other_action}
use ether_trade.Accounts.Settlement.Calculation.{Trade}
use ether_trade.CopyTrading.Caches.{get_master_or_follower_balance}

-- No subscription has sold more of a pair than it has bought.
abbrev pub NeverShort : Database → Type 0
NeverShort d =
    (id : ℕ) (pair : Text)
    → total_quantity id pair sell d.history ≤ total_quantity id pair buy d.history

total_quantity-append :
    (id : ℕ) (pair : Text) (side : OrderSide) (hs : List CopyOrderHistory) (h : CopyOrderHistory)
    → total_quantity id pair side (hs ++ h ∷ [])
      ≡ total_quantity id pair side hs
        + (if counts_for id pair side h then h.replicated_quantity else 0)
unfolding total_quantity
total_quantity-append id pair side [] h = omega arith
total_quantity-append id pair side (x ∷ hs) h =
    omega (arith, total_quantity-append id pair side hs h)

-- A sale that is recorded is within what the subscription holds.
abbrev IsCovered : CopyOrderHistory → Database → Type 0
IsCovered h d =
    counts_for h.subscription_id h.pair sell h ≡ true
    → total_quantity h.subscription_id h.pair sell d.history + h.replicated_quantity
      ≤ total_quantity h.subscription_id h.pair buy d.history

sold-within :
    (h : CopyOrderHistory) (d : Database) (id : ℕ) (pair : Text)
    → NeverShort d
    → IsCovered h d
    → total_quantity id pair sell d.history
        + (if counts_for id pair sell h then h.replicated_quantity else 0)
      ≤ total_quantity id pair buy d.history
sold-within h d id pair short covered = elim (Bool-cases (counts_for id pair sell h)) [
  | inr other ↦ rw other (omega (arith, short id pair))
  | inl sale ↦
      let same_id : h.subscription_id ≡ id = ground (arith, sale) in
      let same_pair : h.pair ≡ pair = text_eq_sound h.pair pair (ground (arith, sale)) in
      let here : counts_for h.subscription_id h.pair sell h ≡ true =
        ground (arith, sale, text_eq_refl h.pair, same_id) in
      rw sale (
        subst
          (λ (k : ℕ).
            total_quantity k pair sell d.history + h.replicated_quantity
            ≤ total_quantity k pair buy d.history)
          same_id
          (subst
            (λ (t : Text).
              total_quantity h.subscription_id t sell d.history + h.replicated_quantity
              ≤ total_quantity h.subscription_id t buy d.history)
            same_pair (covered here)))
]

create_history-NeverShort :
    (h : CopyOrderHistory) (d : Database)
    → NeverShort d
    → IsCovered h d
    → NeverShort (create_history h d)
unfolding create_history
create_history-NeverShort h d short covered id pair =
    elim (Bool-cases
      (is_some (find_by_subscription_and_trade h.subscription_id h.master_trade_id d))) [
        | inl there ↦ rw there (short id pair)
        | inr new ↦ rw new (
            omega (
              arith,
              total_quantity-append id pair sell d.history h,
              total_quantity-append id pair buy d.history h,
              sold-within h d id pair short covered,
            ))
      ]

module _ {X : Type 0} (client : OrdersClient X) (env : ReplicationEnv) (rounds : Rounds env.numbers)
    (task : ReplicationSideTask) (balance : ℕ) (sub : CopySubscription) where
  -- The quantity of a sale is within the position.
  target-le :
      (d : Database)
      → NeverShort d
      → total_quantity sub.id task.pair sell d.history
          + target_quantity env.numbers sub task sell balance d
        ≤ total_quantity sub.id task.pair buy d.history
  unfolding target_quantity get_subscription_position
  target-le d short =
      let bought = total_quantity sub.id task.pair buy d.history in
      let sold = total_quantity sub.id task.pair sell d.history in
      omega (
        arith,
        short sub.id task.pair,
        calculate_sub_position_lem rounds bought sold,
        calculate_sell_quantity-le rounds task.master_quantity balance
            (calculate_sub_position env.numbers bought sold),
      )

  placed-IsCovered :
      (price : ℕ) (answer : Placed) (d : Database) (side : OrderSide)
      → task.side ≡ side
      → NeverShort d
      → IsCovered
          (placed_row env sub task
            (target_quantity env.numbers sub task side balance d)
            price
            answer)
          d
  placed-IsCovered price (refused message) d side at short = λ sale. ground (arith, sale)
  placed-IsCovered price (placed order) d buy at short = λ sale. ground (arith, sale, at)
  placed-IsCovered price (placed order) d sell at short = λ sale. target-le d short

  copy_trade-NeverShort :
      (w : World X)
      → NeverShort w.service.db
      → NeverShort (copy_trade client env task balance sub w).service.db
  unfolding copy_trade place_order
  copy_trade-NeverShort w short =
      let quantity = target_quantity env.numbers sub task task.side balance w.service.db in
      either_way (λ (z : World X). NeverShort z.service.db) (is_dust env.lots task.pair quantity) _
        _ (create_history-NeverShort _ w.service.db short (λ sale. ground (arith, sale)))
        (create_history-NeverShort _ w.service.db short
          (placed-IsCovered _ _ w.service.db task.side refl short))

  locked_copy-NeverShort :
      (w : World X) (lock : Option ℕ × List HeldLock)
      → NeverShort w.service.db
      → NeverShort (locked_copy client env task balance sub w lock).service.db
  locked_copy-NeverShort w (none, locks) short = short
  locked_copy-NeverShort w (some token, locks) short =
      copy_trade-NeverShort (record w { locks = locks }) short

went_through-state :
    {X : Type 0} (z : Option (List (Unit {0})) × World X) → (went_through z).1 ≡ z.1
went_through-state (none, w) = refl
went_through-state (some _, w) = refl

module _ {X : Type 0} (client : OrdersClient X) (env : ReplicationEnv)
    (rounds : Rounds env.numbers) where
  follower-NeverShort :
      (task : ReplicationSideTask) (balance : ℕ) (sub : CopySubscription) (w : World X)
      → NeverShort w.service.db
      → NeverShort (replicate_for_subscriber client env task balance sub w).service.db
  unfolding replicate_for_subscriber
  follower-NeverShort task balance sub w short =
      locked_copy-NeverShort client env rounds task balance sub w _ short

  replicate_to-NeverShort :
      (task : ReplicationSideTask) (subs : List CopySubscription) (w : World X)
      → NeverShort w.service.db
      → NeverShort (replicate_to client env task subs w).1.service.db
  replicate_to-NeverShort task [] w short = short
  replicate_to-NeverShort task (sub ∷ subs) w short =
      let (balance, cache) =
        get_master_or_follower_balance env.service task.master_user_id
          (balance_currency task.side task.pair) w.service.cache in
      let w' = record w { service = record w.service { cache = cache } } in
      let z =
        execute_in_batches batch_size (follower_task client env task balance)
          (env.heartbeat task.side) (sub ∷ subs) w' in
      subst (λ (v : World X). NeverShort v.service.db) (sym (went_through-state z))
        (execute_in_batches-keeps (follower_task client env task balance)
          (λ (v : World X). NeverShort v.service.db) batch_size (env.heartbeat task.side)
          (sub ∷ subs) w' (λ x t h. follower-NeverShort task balance x t h) short)

  tasks-NeverShort :
      (tasks : List ReplicationSideTask) (w : World X)
      → NeverShort w.service.db
      → NeverShort (replicate_tasks client env tasks w).1.service.db
  unfolding replicate_tasks replicate_master_trade
  tasks-NeverShort [] w short = short
  tasks-NeverShort (task ∷ tasks) w short =
      let here =
        replicate_to-NeverShort task (find_active_by_master env.sorted task.master_id w.service.db)
          w short in
      either_way (λ (z : Bool × World X). NeverShort z.1.service.db)
        (replicate_master_trade client env task w).0 _ _
        (tasks-NeverShort tasks (replicate_master_trade client env task w).1 here) here

  marked-NeverShort :
      (event_id : ℕ) (event_type : Text) (z : Bool × World X)
      → NeverShort z.1.service.db
      → NeverShort (marked client env event_id event_type z).1.service.db
  unfolding mark_processed
  marked-NeverShort event_id event_type (false, w) short = short
  marked-NeverShort event_id event_type (true, w) short =
      either_way NeverShort (is_processed event_id w.service.db) _ _ short short

  new-NeverShort :
      (event_id : ℕ) (event_type : Text) (tasks : List ReplicationSideTask) (w : World X)
      → NeverShort w.service.db
      → NeverShort (replicate_new client env event_id event_type tasks w).1.service.db
  new-NeverShort event_id event_type [] w short = short
  new-NeverShort event_id event_type (task ∷ tasks) w short =
      either_way (λ (z : Replicated × World X). NeverShort z.1.service.db)
        (is_processed event_id w.service.db) _ _ short
        (marked-NeverShort event_id event_type (replicate_tasks client env (task ∷ tasks) w)
          (tasks-NeverShort (task ∷ tasks) w short))

  envelope-NeverShort :
      (header : Option Text) (e : Envelope) (event_id : Option ℕ) (trade : Option Trade)
      (w : World X)
      → NeverShort w.service.db
      → NeverShort (handle_envelope client env header e event_id trade w).1.service.db
  envelope-NeverShort header e none trade w short = short
  envelope-NeverShort header e (some id) none w short = short
  envelope-NeverShort header e (some id) (some trade) w short =
      either_way (λ (z : Replicated × World X). NeverShort z.1.service.db)
        (is_other_action (or_else e.action header)) _ _ short
        (new-NeverShort id e.event_type (side_tasks w.service.active_masters trade) w short)

  -- Whatever comes of a message, no subscription has sold more of a pair through completed copies than
  -- it has bought, if that was so before.
  pub handle_message-NeverShort :
      (message : Message) (w : World X)
      → NeverShort w.service.db
      → NeverShort (handle_message client env message w).1.service.db
  unfolding handle_message
  handle_message-NeverShort message w short = elim (Option-cases message.value) [
    | inl missing ↦ rw missing short
    | inr (e, there) ↦
        rw there (envelope-NeverShort message.action_header e e.event_id e.payload w short)
  ]
