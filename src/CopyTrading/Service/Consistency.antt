-- ===== src/CopyTrading/Service/Consistency.antt =====
-- What hangs together in the state of apps/copy-trading/src/copy-trading.service.ts, and that its writes
-- keep it.
use ether_trade.Prelude.{
  ℕ, ◌+◌, ◌-◌, ◌≡◌, ◌≢◌, refl, sym, ap, ◌∙◌, subst, Bool, true, false, ◌||◌, Option, none, some, [],
  ◌∷◌, ◌++◌, All, All-append, All-update_where, arith, Bool-cases, Option-cases, inl, inr,
  select_first, select_first-All, update_where, ltb,
}
use ether_trade.Prelude.Keys.{DistinctBy, DistinctBy-append, DistinctBy-update_where}
use ether_trade.CopyTrading.Types.{
  MasterTrader, CopySubscription, terminated, Database, default_max_slippage,
}
use ether_trade.CopyTrading.Repository.{
  master_is, is_active_status, is_terminated, subscription_is, changed_copiers, reactivated,
  with_status, find_by_follower_and_master, is_some, create_master, find_master_by_user,
  create_subscription_row, reactivate_subscription, update_status, increment_copiers,
  decrement_copiers,
}
use ether_trade.CopyTrading.Service.{
  RegisterMasterRequest, CreateSubscriptionRequest, register_master, new_master, new_subscription,
  write_subscription, terminate, or_default, current_allocated, find_active_by_follower, usdt,
}
use ether_trade.CopyTrading.Caches.{
  State, Env, preload_active_masters, get_master_or_follower_balance,
}
use ether_trade.CopyTrading.Service.FastPath.{
  Agrees, preload-Agrees, Agrees-append, active_row, active_row-changed,
}
use ether_trade.CopyTrading.Service.Copiers.{
  copiers, Counted, NeverPaused, counted_up, counted_down, copiers-append, copiers-reactivated,
  copiers-terminated, copiers-unnamed,
}

-- The parts of the state that hang together. The cache and Valkey's set are no part of it.
pub record IsConsistent (s : State) : Type 0 where
  pub master_ids : DistinctBy (λ (m : MasterTrader). m.id) s.db.masters
  pub users : DistinctBy (λ (m : MasterTrader). m.user_id) s.db.masters
  pub subscription_ids : DistinctBy (λ (x : CopySubscription). x.id) s.db.subscriptions
  pub never_paused : NeverPaused s.db.subscriptions
  pub counted : Counted s.db.masters s.db.subscriptions
  pub fast_path : Agrees s.active_masters s.db.masters

-- The state and the test of the overcommit guard.
abbrev pub cached : Env → CreateSubscriptionRequest → State → State
cached env r s = record s {
  cache = (get_master_or_follower_balance env r.follower_user_id usdt s.cache).1;
}

abbrev pub exceeds : Env → CreateSubscriptionRequest → Option CopySubscription → State → Bool
exceeds env r existing s =
    ltb (get_master_or_follower_balance env r.follower_user_id usdt s.cache).0 (
      current_allocated existing (find_active_by_follower r.follower_user_id s.db)
      + r.allocated_balance)

-- The id for a new row is unused.
abbrev pub IsFresh : ℕ → Database → Type 0
IsFresh id d =
    (select_first (master_is id) d.masters ≡ none)
    × (select_first (subscription_is id) d.subscriptions ≡ none)
    × All (λ (x : CopySubscription). x.master_id ≢ id) d.subscriptions

-- What counting the copiers of a master keeps, whatever the count.
module _ (now id : ℕ) (f : ℕ → ℕ) (s : State) (d : Database) (v : IsConsistent s) where
  recounted :
      d.masters ≡ s.db.masters
      → DistinctBy (λ (x : CopySubscription). x.id) d.subscriptions
      → NeverPaused d.subscriptions
      → Counted (update_where (master_is id) (changed_copiers f now) d.masters) d.subscriptions
      → IsConsistent (record s {
        db = record d { masters = update_where (master_is id) (changed_copiers f now) d.masters };
      })
  recounted same ids paused counted = record {
    master_ids =
        DistinctBy-update_where (λ (m : MasterTrader). m.id) (changed_copiers f now) (λ m. refl)
          (master_is id) d.masters
          (subst (DistinctBy (λ (m : MasterTrader). m.id)) (sym same) v.master_ids);
    users =
        DistinctBy-update_where (λ (m : MasterTrader). m.user_id) (changed_copiers f now)
          (λ m. refl) (master_is id) d.masters
          (subst (DistinctBy (λ (m : MasterTrader). m.user_id)) (sym same) v.users);
    subscription_ids = ids;
    never_paused = paused;
    counted = counted;
    fast_path = λ user.
        v.fast_path user
        ∙ sym (active_row-changed now user id f d.masters ∙ ap (active_row user) same);
  }

module _ (env : Env) (s : State) (v : IsConsistent s) (quiet : (d : Database) → env.meanwhile d ≡ d)
    (fresh : IsFresh env.new_id s.db) where
  pub register-IsConsistent : (r : RegisterMasterRequest) → IsConsistent (register_master env r s).1
  unfolding register_master create_master find_master_by_user
  register-IsConsistent r = elim (Option-cases (find_master_by_user r.user_id s.db)) [
    | inr (m, found) ↦ rw found v
    | inl free ↦
        rw (free, free)
          (record {
            master_ids =
                DistinctBy-append (λ (m : MasterTrader). m.id) s.db.masters (new_master env r)
                  v.master_ids fresh.0;
            users =
                DistinctBy-append (λ (m : MasterTrader). m.user_id) s.db.masters (new_master env r)
                  v.users free;
            subscription_ids = v.subscription_ids;
            never_paused = v.never_paused;
            counted =
                All-append (λ (m : MasterTrader). m.total_copiers ≡ copiers m.id s.db.subscriptions)
                  s.db.masters (new_master env r ∷ []) v.counted
                  (sym (copiers-unnamed env.new_id s.db.subscriptions fresh.2), tt);
            fast_path =
                Agrees-append s.active_masters s.db.masters (new_master env r) refl free
                  v.fast_path;
          })
  ]

  pub new-IsConsistent :
      (r : CreateSubscriptionRequest) (m : MasterTrader)
      → m.id ≡ r.master_id
      → IsConsistent (write_subscription env r m none s).1
  unfolding write_subscription create_subscription_row increment_copiers
  new-IsConsistent r m is =
      rw (quiet s.db)
        (elim (Bool-cases
          (is_some (find_by_follower_and_master r.follower_user_id r.master_id s.db))) [
            | inl taken ↦ rw taken v
            | inr free ↦ rw free (
                recounted env.now m.id (λ n. n + 1) s
                  (record s.db {
                    subscriptions = s.db.subscriptions ++ new_subscription env r ∷ [];
                  })
                  v refl
                  (DistinctBy-append (λ (x : CopySubscription). x.id) s.db.subscriptions
                    (new_subscription env r) v.subscription_ids fresh.1)
                  (All-append
                    (λ (x : CopySubscription).
                      (is_active_status x.status || is_terminated x.status) ≡ true)
                    s.db.subscriptions (new_subscription env r ∷ []) v.never_paused (refl, tt))
                  (counted_up env.now m.id s.db.subscriptions
                    (s.db.subscriptions ++ new_subscription env r ∷ []) s.db.masters
                    (λ k. rw is (copiers-append k (new_subscription env r) s.db.subscriptions refl))
                    v.counted))
          ])

  pub old-IsConsistent :
      (r : CreateSubscriptionRequest) (m : MasterTrader) (e : CopySubscription)
      → m.id ≡ e.master_id
      → select_first (subscription_is e.id) s.db.subscriptions ≡ some e
      → is_active_status e.status ≡ false
      → IsConsistent (write_subscription env r m (some e) s).1
  unfolding write_subscription reactivate_subscription increment_copiers
  old-IsConsistent r m e is found off =
      let slippage = or_default default_max_slippage r.max_slippage_percent in
      let g = reactivated r.allocated_balance slippage env.now in
      rw (quiet s.db) (
        recounted env.now m.id (λ n. n + 1) s
          (record s.db { subscriptions = update_where (subscription_is e.id) g s.db.subscriptions })
          v refl
          (DistinctBy-update_where (λ (x : CopySubscription). x.id) g (λ x. refl)
            (subscription_is e.id) s.db.subscriptions v.subscription_ids)
          (All-update_where
            (λ (x : CopySubscription). (is_active_status x.status || is_terminated x.status) ≡ true)
            (subscription_is e.id) g s.db.subscriptions (λ x hit h. refl) v.never_paused)
          (counted_up env.now m.id s.db.subscriptions
            (update_where (subscription_is e.id) g s.db.subscriptions) s.db.masters
            (λ k. rw is (
              copiers-reactivated s.db.subscriptions e v.subscription_ids found r.allocated_balance
                slippage env.now k off))
            v.counted))

  pub terminate-IsConsistent :
      (e : CopySubscription)
      → select_first (subscription_is e.id) s.db.subscriptions ≡ some e
      → is_terminated e.status ≡ false
      → IsConsistent (terminate env e s).1
  unfolding terminate update_status decrement_copiers
  terminate-IsConsistent e found live =
      let g = with_status terminated env.now in
      let known =
        select_first-All
          (λ (x : CopySubscription). (is_active_status x.status || is_terminated x.status) ≡ true)
          (subscription_is e.id) s.db.subscriptions e v.never_paused found in
      let on : is_active_status e.status ≡ true = ground (arith, known, live) in
      rw (quiet s.db) (
        recounted env.now e.master_id (λ n. n - 1) s
          (record s.db { subscriptions = update_where (subscription_is e.id) g s.db.subscriptions })
          v refl
          (DistinctBy-update_where (λ (x : CopySubscription). x.id) g (λ x. refl)
            (subscription_is e.id) s.db.subscriptions v.subscription_ids)
          (All-update_where
            (λ (x : CopySubscription). (is_active_status x.status || is_terminated x.status) ≡ true)
            (subscription_is e.id) g s.db.subscriptions (λ x hit h. refl) v.never_paused)
          (counted_down env.now e.master_id s.db.subscriptions
            (update_where (subscription_is e.id) g s.db.subscriptions) s.db.masters
            (λ k. copiers-terminated s.db.subscriptions e v.subscription_ids found env.now k on)
            v.counted))

  -- A cache that the guard has filled is no part of the invariant.
  pub cached-IsConsistent : (r : CreateSubscriptionRequest) → IsConsistent (cached env r s)
  cached-IsConsistent r = record {
    master_ids = v.master_ids;
    users = v.users;
    subscription_ids = v.subscription_ids;
    never_paused = v.never_paused;
    counted = v.counted;
    fast_path = v.fast_path;
  }

  pub preload-IsConsistent : IsConsistent (preload_active_masters env s)
  unfolding preload_active_masters
  preload-IsConsistent = record {
    master_ids = v.master_ids;
    users = v.users;
    subscription_ids = v.subscription_ids;
    never_paused = v.never_paused;
    counted = v.counted;
    fast_path = preload-Agrees env s v.users;
  }
