-- ===== src/CopyTrading/Replication/Liveness.antt =====
-- What the subscribers of a master get of a trade: handleMessage of apps/copy-trading/src/consumers/master-trade-replication.consumer.ts.
use ether_trade.Prelude.{
  ℕ, ◌≡◌, refl, sym, ap, subst, Bool, true, false, some, List, [], ◌∷◌, All, Text, if◌then◌else◌,
  arith, either_way, select_all,
}
use ether_trade.Orders.Types.{OrderSide}
use ether_trade.Common.Batches.{run_all, run_all-keeps, execute_in_batches_lem}
use ether_trade.Accounts.Settlement.Calculation.{Trade}
use ether_trade.Accounts.Settlement.Messages.{Envelope, Message, or_else, is_other_action}
use ether_trade.CopyTrading.Types.{CopySubscription, Database}
use ether_trade.CopyTrading.Repository.{
  mark_processed, is_processed, find_active_by_master, is_active_of_master,
  find_by_subscription_and_trade,
}
use ether_trade.CopyTrading.Caches.{get_master_or_follower_balance}
use ether_trade.CopyTrading.Replication.Types.{
  ReplicationSideTask, OrdersClient, World, ReplicationEnv, with_db,
}
use ether_trade.CopyTrading.Replication.Messages.{
  handle_message, went_through, follower_task, replicate_to, replicate_master_trade,
  replicate_tasks, marked, replicate_new, side_tasks, batch_size, balance_currency, duplicate,
}
use ether_trade.CopyTrading.Replication.Coverage.{
  HasCopy, IsQuiet, Ready, follower-keeps, follower-Ready, followers-Covered,
}

All-map {ℓ κ} :
    {A : Type ℓ} (P Q : A → Type κ) (xs : List A) → ((x : A) → P x → Q x) → All P xs → All Q xs
All-map P Q [] f h = tt
All-map P Q (x ∷ xs) f h = (f x h.0, All-map P Q xs f h.1)

module _ {X : Type 0} (client : OrdersClient X) (env : ReplicationEnv) (quiet : IsQuiet env)
    (beats : (side : OrderSide) (n : ℕ) → env.heartbeat side n ≡ true) where
  -- The followers that a task has at the start all have a copy.
  abbrev pub Covered : List CopySubscription → ReplicationSideTask → World X → Type 0
  Covered subs task w =
      All (λ (sub : CopySubscription). HasCopy sub.id task.trade_id w.service.db) subs

  -- The world in which the followers of a task are served, once the balance has been read.
  abbrev with_cache : ReplicationSideTask → World X → World X
  with_cache task w = record w {
    service = record w.service {
      cache =
          (get_master_or_follower_balance env.service task.master_user_id
            (balance_currency task.side task.pair) w.service.cache).1;
    };
  }

  abbrev balance_for : ReplicationSideTask → World X → ℕ
  balance_for task w =
      (get_master_or_follower_balance env.service task.master_user_id
        (balance_currency task.side task.pair) w.service.cache).0

  replicate_to-all :
      (task : ReplicationSideTask) (sub : CopySubscription) (subs : List CopySubscription)
      (w : World X)
      → replicate_to client env task (sub ∷ subs) w ≡ (
        true,
        (run_all
            (follower_task client env task (balance_for task w))
            (sub ∷ subs)
            (with_cache task w)).1,
      )
  replicate_to-all task sub subs w = ap went_through (
      execute_in_batches_lem (follower_task client env task (balance_for task w)) batch_size
        (env.heartbeat task.side) (sub ∷ subs) (with_cache task w) (omega arith) (beats task.side))

  replicate_to-covers :
      (all : List CopySubscription) (task : ReplicationSideTask) (subs : List CopySubscription)
      (w : World X)
      → Ready all w
      → ((replicate_to client env task subs w).0 ≡ true)
        × Ready all (replicate_to client env task subs w).1
        × Covered subs task (replicate_to client env task subs w).1
  replicate_to-covers all task [] w r = (refl, r, tt)
  replicate_to-covers all task (sub ∷ subs) w r =
      let step = follower_task client env task (balance_for task w) in
      subst (λ (z : Bool × World X). (z.0 ≡ true) × Ready all z.1 × Covered (sub ∷ subs) task z.1)
        (sym (replicate_to-all task sub subs w))
        (
          refl,
          run_all-keeps step (Ready all) (sub ∷ subs) (with_cache task w)
              (λ x t h. follower-Ready client env quiet task (balance_for task w) all x t h) r,
          followers-Covered client env quiet task (balance_for task w) all (sub ∷ subs)
              (with_cache task w) r,
        )

  -- A copy that is there stays.
  replicate_to-keeps :
      (id : ℕ) (trade : Text) (task : ReplicationSideTask) (subs : List CopySubscription)
      (w : World X)
      → HasCopy id trade w.service.db
      → HasCopy id trade (replicate_to client env task subs w).1.service.db
  replicate_to-keeps id trade task [] w h = h
  replicate_to-keeps id trade task (sub ∷ subs) w h = rw (replicate_to-all task sub subs w) (
      run_all-keeps (follower_task client env task (balance_for task w))
        (λ (z : World X). HasCopy id trade z.service.db) (sub ∷ subs) (with_cache task w)
        (λ x t k. follower-keeps client env task (balance_for task w) id trade x t k) h)

  -- The same for a whole task, whose followers are those that it finds.
  master_trade_lem :
      (d : Database) (task : ReplicationSideTask) (w : World X)
      → Ready d.subscriptions w
      → ((replicate_master_trade client env task w).0 ≡ true)
        × Ready d.subscriptions (replicate_master_trade client env task w).1
        × Covered
            (find_active_by_master env.sorted task.master_id d)
            task
            (replicate_master_trade client env task w).1
  unfolding replicate_master_trade find_active_by_master
  master_trade_lem d task w r =
      let found =
        env.sorted (select_all (is_active_of_master task.master_id) w.service.db.subscriptions) in
      let all = replicate_to-covers d.subscriptions task found w r in
      (
        all.0,
        all.1,
        subst
            (λ (subs : List CopySubscription).
              Covered (env.sorted (select_all (is_active_of_master task.master_id) subs)) task
                (replicate_to client env task found w).1)
            r.0 all.2,
      )

  tasks-step :
      (task : ReplicationSideTask) (tasks : List ReplicationSideTask) (w : World X)
      → (replicate_master_trade client env task w).0 ≡ true
      → replicate_tasks client env (task ∷ tasks) w
        ≡ replicate_tasks client env tasks (replicate_master_trade client env task w).1
  unfolding replicate_tasks
  tasks-step task tasks w well = rw well

  tasks-keeps :
      (d : Database) (id : ℕ) (trade : Text) (tasks : List ReplicationSideTask) (w : World X)
      → Ready d.subscriptions w
      → HasCopy id trade w.service.db
      → HasCopy id trade (replicate_tasks client env tasks w).1.service.db
  unfolding replicate_tasks replicate_master_trade
  tasks-keeps d id trade [] w r h = h
  tasks-keeps d id trade (task ∷ tasks) w r h =
      let step = master_trade_lem d task w r in
      subst (λ (z : Bool × World X). HasCopy id trade z.1.service.db)
        (sym (tasks-step task tasks w step.0))
        (tasks-keeps d id trade tasks (replicate_master_trade client env task w).1 step.1 (
          replicate_to-keeps id trade task
            (find_active_by_master env.sorted task.master_id w.service.db) w h))

  tasks-Covered :
      (d : Database) (tasks : List ReplicationSideTask) (w : World X)
      → Ready d.subscriptions w
      → ((replicate_tasks client env tasks w).0 ≡ true)
        × ((replicate_tasks client env tasks w).1.locks ≡ [])
        × All
            (λ (task : ReplicationSideTask).
              Covered
                (find_active_by_master env.sorted task.master_id d)
                task
                (replicate_tasks client env tasks w).1)
            tasks
  unfolding replicate_tasks
  tasks-Covered d [] w r = (refl, r.1, tt)
  tasks-Covered d (task ∷ tasks) w r =
      let step = master_trade_lem d task w r in
      let w' = (replicate_master_trade client env task w).1 in
      let rest = tasks-Covered d tasks w' step.1 in
      subst
        (λ (z : Bool × World X).
          (z.0 ≡ true)
          × (z.1.locks ≡ [])
          × All
              (λ (t : ReplicationSideTask).
                Covered (find_active_by_master env.sorted t.master_id d) t z.1)
              (task ∷ tasks))
        (sym (tasks-step task tasks w step.0))
        (
          rest.0,
          rest.1,
          (
            All-map (λ (sub : CopySubscription). HasCopy sub.id task.trade_id w'.service.db)
                (λ (sub : CopySubscription).
                  HasCopy sub.id task.trade_id (replicate_tasks client env tasks w').1.service.db)
                (find_active_by_master env.sorted task.master_id d)
                (λ sub h. tasks-keeps d sub.id task.trade_id tasks w' step.1 h) step.2,
            rest.2,
          ),
        )

  -- The followers of every task have a copy, and no lock is left.
  abbrev pub AllCovered : Database → List ReplicationSideTask → World X → Type 0
  AllCovered d tasks w =
      (w.locks ≡ [])
      × All
          (λ (task : ReplicationSideTask).
            Covered (find_active_by_master env.sorted task.master_id d) task w)
          tasks

  marked-AllCovered :
      (d : Database) (tasks : List ReplicationSideTask) (event_id : ℕ) (event_type : Text)
      (z : Bool × World X)
      → AllCovered d tasks z.1
      → AllCovered d tasks (marked client env event_id event_type z).1
  unfolding mark_processed find_by_subscription_and_trade
  marked-AllCovered d tasks event_id event_type (false, w) h = h
  marked-AllCovered d tasks event_id event_type (true, w) h =
      either_way (λ (x : Database). AllCovered d tasks (with_db w x))
        (is_processed event_id w.service.db) _ _ h h

  new_covers :
      (event_id : ℕ) (event_type : Text) (tasks : List ReplicationSideTask) (w : World X)
      → w.locks ≡ []
      → is_processed event_id w.service.db ≡ false
      → AllCovered w.service.db tasks (replicate_new client env event_id event_type tasks w).1
  new_covers event_id event_type [] w free new = (free, tt)
  new_covers event_id event_type (task ∷ tasks) w free new =
      let all = tasks-Covered w.service.db (task ∷ tasks) w (refl, free) in
      subst
        (λ (b : Bool).
          AllCovered w.service.db (task ∷ tasks)
            (if b
              then (duplicate, w)
              else marked client env event_id event_type
                  (replicate_tasks client env (task ∷ tasks) w)).1)
        (sym new)
        (marked-AllCovered w.service.db (task ∷ tasks) event_id event_type
          (replicate_tasks client env (task ∷ tasks) w) (all.1, all.2))

  -- Every active subscriber of each active master that takes part in the trade has a row in the
  -- history for it after the message, and no lock is left; no lock was held before, Valkey answers,
  -- nobody else takes or loses a lock, every heartbeat succeeds, and the message is a trade that has
  -- not been processed yet.
  pub handle_message_covers :
      (message : Message) (w : World X) (e : Envelope) (event_id : ℕ) (trade : Trade)
      → w.locks ≡ []
      → message.value ≡ some e
      → e.event_id ≡ some event_id
      → e.payload ≡ some trade
      → is_other_action (or_else e.action message.action_header) ≡ false
      → is_processed event_id w.service.db ≡ false
      → AllCovered w.service.db
          (side_tasks w.service.active_masters trade)
          (handle_message client env message w).1
  unfolding handle_message
  handle_message_covers message w e event_id trade free value id payload action new =
      rw (value, id, payload, action)
        (new_covers event_id e.event_type (side_tasks w.service.active_masters trade) w free new)
