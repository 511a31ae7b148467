-- ===== src/CopyTrading/Replication/Once.antt =====
-- A message that is delivered again: handleMessage of
-- apps/copy-trading/src/consumers/master-trade-replication.consumer.ts.
use ether_trade.Prelude.{
  ℕ, ◌≡◌, ◌≢◌, ◌⊎◌, refl, sym, ap, subst, Bool, true, false, Option, none, some, List, [], ◌∷◌,
  ◌++◌, ◌==◌, ==_iff, Text, arith, Bool-cases, Option-cases, inl, inr, select_first,
}
use ether_trade.Accounts.Settlement.Calculation.{Trade}
use ether_trade.Accounts.Settlement.Messages.{Envelope, Message, or_else, is_other_action}
use ether_trade.CopyTrading.Types.{ProcessedEvent, Database}
use ether_trade.CopyTrading.Repository.{mark_processed, is_processed, is_some}
use ether_trade.CopyTrading.Replication.Types.{
  ReplicationSideTask, OrdersClient, World, ReplicationEnv,
}
use ether_trade.CopyTrading.Replication.Messages.{
  handle_message, handle_envelope, replicate_tasks, replicate_new, marked, side_tasks, Replicated,
  heartbeat_failed,
}

is_some-append :
    (p : ProcessedEvent → Bool) (rows : List ProcessedEvent) (e : ProcessedEvent)
    → p e ≡ true
    → is_some (select_first p (rows ++ e ∷ [])) ≡ true
unfolding select_first
is_some-append p [] e h = rw h
is_some-append p (x ∷ rows) e h = ground (arith, is_some-append p rows e h)

mark_processed_lem :
    (e : ProcessedEvent) (d : Database) → is_processed e.event_id (mark_processed e d) ≡ true
unfolding mark_processed is_processed
mark_processed_lem e d = elim (Bool-cases (is_processed e.event_id d)) [
  | inl there ↦ rw there there
  | inr new ↦ rw new (
      is_some-append (λ x. x.event_id == e.event_id) d.processed_events e
        ((==_iff e.event_id e.event_id).1 refl))
]

module _ {X : Type 0} (client : OrdersClient X) (event_id : ℕ) (event_type : Text) where
  -- A processed event changes nothing.
  processed-unchanged :
      (env : ReplicationEnv) (tasks : List ReplicationSideTask) (w : World X)
      → is_processed event_id w.service.db ≡ true
      → (replicate_new client env event_id event_type tasks w).1 ≡ w
  processed-unchanged env [] w done = refl
  processed-unchanged env (task ∷ tasks) w done = rw done

  marked-processed :
      (env : ReplicationEnv) (z : Bool × World X)
      → (marked client env event_id event_type z).0 ≢ heartbeat_failed
      → is_processed event_id (marked client env event_id event_type z).1.service.db ≡ true
  marked-processed env (false, w) fine = absurd (fine refl)
  marked-processed env (true, w) fine = mark_processed_lem _ w.service.db

  -- What has been handled without a failure is processed, or was for nobody.
  new-handled :
      (env : ReplicationEnv) (tasks : List ReplicationSideTask) (w : World X)
      → (replicate_new client env event_id event_type tasks w).0 ≢ heartbeat_failed
      → (is_processed event_id (replicate_new client env event_id event_type tasks w).1.service.db
          ≡ true)
        ⊎ (((replicate_new client env event_id event_type tasks w).1 ≡ w) × (tasks ≡ []))
  new-handled env [] w fine = inr (refl, refl)
  new-handled env (task ∷ tasks) w fine = elim (Bool-cases (is_processed event_id w.service.db)) [
    | inl done ↦ rw done (inl done)
    | inr new ↦
        let z = replicate_tasks client env (task ∷ tasks) w in
        let step : replicate_new client env event_id event_type (task ∷ tasks) w
            ≡ marked client env event_id event_type z =
          rw new in
        inl (
          subst (λ (y : Replicated × World X). is_processed event_id y.1.service.db ≡ true)
            (sym step)
            (marked-processed env z
              (subst (λ (y : Replicated × World X). y.0 ≢ heartbeat_failed) step fine)))
  ]

module _ {X : Type 0} (client : OrdersClient X) (env env' : ReplicationEnv) where
  new_twice :
      (event_id : ℕ) (event_type : Text) (trade : Trade) (w : World X)
      → (replicate_new client env event_id event_type
          (side_tasks w.service.active_masters trade)
          w).0
        ≢ heartbeat_failed
      → let v =
          (replicate_new client env event_id event_type
            (side_tasks w.service.active_masters trade)
            w).1 in
        (replicate_new client env' event_id event_type
          (side_tasks v.service.active_masters trade)
          v).1
        ≡ v
  new_twice event_id event_type trade w fine =
      let tasks = side_tasks w.service.active_masters trade in
      elim (new-handled client event_id event_type env tasks w fine) [
        | inl done ↦ processed-unchanged client event_id event_type env' _ _ done
        | inr (same, none_left) ↦
            subst
              (λ (v : World X).
                (replicate_new client env' event_id event_type
                  (side_tasks v.service.active_masters trade) v).1
                ≡ v)
              (sym same)
              (ap
                (λ (ts : List ReplicationSideTask).
                  (replicate_new client env' event_id event_type ts w).1)
                none_left)
      ]

  envelope_twice :
      (header : Option Text) (e : Envelope) (event_id : Option ℕ) (trade : Option Trade)
      (w : World X)
      → (handle_envelope client env header e event_id trade w).0 ≢ heartbeat_failed
      → (handle_envelope client env' header e event_id trade
          (handle_envelope client env header e event_id trade w).1).1
        ≡ (handle_envelope client env header e event_id trade w).1
  envelope_twice header e none trade w fine = refl
  envelope_twice header e (some id) none w fine = refl
  envelope_twice header e (some id) (some trade) w fine =
      elim (Bool-cases (is_other_action (or_else e.action header))) [
        | inl other ↦ rw other refl
        | inr ours ↦ rw ours (new_twice id e.event_type trade w (rw ours at fine))
      ]

  -- A message that has been handled without a failed heartbeat changes nothing when it is delivered
  -- again, whatever the second handling takes from outside.
  pub handle_message_once :
      (message : Message) (w : World X)
      → (handle_message client env message w).0 ≢ heartbeat_failed
      → (handle_message client env' message (handle_message client env message w).1).1
        ≡ (handle_message client env message w).1
  unfolding handle_message
  handle_message_once message w fine = elim (Option-cases message.value) [
    | inl missing ↦ rw missing refl
    | inr (e, there) ↦
        rw there (envelope_twice message.action_header e e.event_id e.payload w (rw there at fine))
  ]
