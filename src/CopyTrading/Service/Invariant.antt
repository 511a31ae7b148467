-- ===== src/CopyTrading/Service/Invariant.antt =====
-- The invariant of apps/copy-trading/src/copy-trading.service.ts over its calls.
use ether_trade.Prelude.{
  ℕ, ◌≡◌, refl, false, not, Option, none, some, ◌==◌, arith, Bool-cases, Option-cases, inl, inr,
  select_first-holds, ltb, either_way,
}
use ether_trade.Prelude.Keys.{select_first-by_key}
use ether_trade.CopyTrading.Types.{MasterTrader, CopySubscription, Database}
use ether_trade.CopyTrading.Repository.{
  master_is, is_terminated, subscription_is, follows, find_master, find_by_follower_and_master,
  find_subscription,
}
use ether_trade.CopyTrading.Service.{
  RegisterMasterRequest, CreateSubscriptionRequest, register_master, write_subscription,
  guard_allocation, create_subscription, cancel_subscription, is_subscribed,
}
use ether_trade.CopyTrading.Caches.{State, Env, preload_active_masters, Result}
use ether_trade.CopyTrading.Service.Consistency.{
  IsConsistent, cached, exceeds, IsFresh, register-IsConsistent, new-IsConsistent, old-IsConsistent,
  terminate-IsConsistent, cached-IsConsistent, preload-IsConsistent,
}

module _ (env : Env) (s : State) (v : IsConsistent s) (quiet : (d : Database) → env.meanwhile d ≡ d)
    (fresh : IsFresh env.new_id s.db) where
  write-IsConsistent :
      (r : CreateSubscriptionRequest) (m : MasterTrader) (existing : Option CopySubscription)
      → m.id ≡ r.master_id
      → find_by_follower_and_master r.follower_user_id r.master_id s.db ≡ existing
      → is_subscribed existing ≡ false
      → IsConsistent (write_subscription env r m existing s).1
  unfolding find_by_follower_and_master
  write-IsConsistent r m none is found off = new-IsConsistent env s v quiet fresh r m is
  write-IsConsistent r m (some e) is found off =
      let ours =
        select_first-holds (follows r.follower_user_id r.master_id) s.db.subscriptions e found in
      old-IsConsistent env s v quiet fresh r m e (ground (arith, is, ours))
        (select_first-by_key (λ (x : CopySubscription). x.id)
          (follows r.follower_user_id r.master_id) s.db.subscriptions e v.subscription_ids found)
        off

  cancel-IsConsistent : (id follower : ℕ) → IsConsistent (cancel_subscription env id follower s).1
  unfolding cancel_subscription find_subscription
  cancel-IsConsistent id follower = elim (Option-cases (find_subscription id s.db)) [
    | inl missing ↦ rw missing v
    | inr (e, found) ↦
        let by_id =
          select_first-by_key (λ (x : CopySubscription). x.id) (subscription_is id)
            s.db.subscriptions e v.subscription_ids found in
        rw found (elim (Bool-cases (e.follower_user_id == follower)) [
          | inr other ↦ rw other v
          | inl mine ↦ rw mine (elim (Bool-cases (is_terminated e.status)) [
            | inl over ↦ rw over v
            | inr live ↦ rw live (terminate-IsConsistent env s v quiet fresh e by_id live)
          ])
        ])
  ]

module _ (env : Env) (s : State) (v : IsConsistent s) (quiet : (d : Database) → env.meanwhile d ≡ d)
    (fresh : IsFresh env.new_id s.db) where
  subscribe-IsConsistent :
      (r : CreateSubscriptionRequest) → IsConsistent (create_subscription env r s).1
  unfolding create_subscription guard_allocation find_master
  subscribe-IsConsistent r = elim (Option-cases (find_master r.master_id s.db)) [
    | inl missing ↦ rw missing v
    | inr (m, found) ↦
        let is : m.id ≡ r.master_id =
          ground (arith, select_first-holds (master_is r.master_id) s.db.masters m found) in
        let existing = find_by_follower_and_master r.follower_user_id r.master_id s.db in
        let v' = cached-IsConsistent env s v quiet fresh r in
        rw found (
          either_way (λ (z : Result CopySubscription × State). IsConsistent z.1) (not m.is_active) _
            _ v
            (either_way (λ (z : Result CopySubscription × State). IsConsistent z.1)
              (ltb r.allocated_balance m.min_deposit) _ _ v
              (elim (Bool-cases (is_subscribed existing)) [
                | inl again ↦ rw again v
                | inr first ↦ rw first (
                    either_way (λ (z : Result CopySubscription × State). IsConsistent z.1)
                      (exceeds env r existing s) _ _ v'
                      (write-IsConsistent env (cached env r s) v' quiet fresh r m existing is refl
                        first))
              ])))
  ]

-- A call of the service.
pub data Call : Type 0 where
  preload : Call
  register : RegisterMasterRequest → Call
  subscribe : CreateSubscriptionRequest → Call
  cancel : ℕ → ℕ → Call

abbrev pub after : Env → Call → State → State
after env preload s = preload_active_masters env s
after env (register r) s = (register_master env r s).1
after env (subscribe r) s = (create_subscription env r s).1
after env (cancel id follower) s = (cancel_subscription env id follower s).1

-- Every call keeps the state consistent: ids and users distinct, nothing paused, each master with as
-- many copiers as it has active subscriptions, and the map of active masters in agreement with the
-- rows. Nothing else is written between a call's checks and its write, and the id for a new row is
-- unused.
pub after-IsConsistent :
    (env : Env) (c : Call) (s : State)
    → IsConsistent s
    → ((d : Database) → env.meanwhile d ≡ d)
    → IsFresh env.new_id s.db
    → IsConsistent (after env c s)
after-IsConsistent env preload s v quiet fresh = preload-IsConsistent env s v quiet fresh
after-IsConsistent env (register r) s v quiet fresh = register-IsConsistent env s v quiet fresh r
after-IsConsistent env (subscribe r) s v quiet fresh = subscribe-IsConsistent env s v quiet fresh r
after-IsConsistent env (cancel id follower) s v quiet fresh =
    cancel-IsConsistent env s v quiet fresh id follower
