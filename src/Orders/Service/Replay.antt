-- ===== src/Orders/Service/Replay.antt =====
-- Idempotency of `createOrder` (apps/orders/src/orders/orders.service.ts): the same key again.
use ether_trade.Prelude.{
  ℕ, ◌+◌, ◌*◌, ◌<◌, true, Option, none, some, List, [], ◌∷◌, ◌++◌, Text, text, text_eq_refl, ◌==◌,
  ltb, ◌≡◌, refl, sym, ap, ◌∙◌, arith, Bool-cases, Option-cases, inl, inr, ==_iff, either_way,
  select_first, update_where,
}
use ether_trade.Orders.Service.Types.{
  CreateOrderRequest, unique_violation, OrderItem, completed, IdempotencyRecord, AccountsClient,
  World, Result, ok, error,
}
use ether_trade.Orders.Service.Idempotency.{
  in_scope, is_current, find_record, create_record, record_is, complete_record,
}
use ether_trade.Orders.Service.Create.{
  CreateEnv, validate_create_order_request, operation, replayed, request_hash, new_record,
  after_lock, after_check, after_record, after_validation, lock_and_place, place, compensate,
  committed, unit_of_work, create_order, hold,
}

no_scope-no_current :
    (now user_id : ℕ) (key : Text) (rows : List IdempotencyRecord)
    → select_first (in_scope user_id operation key) rows ≡ none
    → select_first (is_current now user_id operation key) rows ≡ none
unfolding select_first
no_scope-no_current now user_id key [] h = refl
no_scope-no_current now user_id key (x ∷ rows) h =
    elim (Bool-cases (in_scope user_id operation key x)) [
      | inl hit ↦ let bad : some x ≡ none = rw hit at h in cc
      | inr miss ↦ rw miss (no_scope-no_current now user_id key rows (rw miss at h))
    ]

abbrev with_response : OrderItem → IdempotencyRecord → IdempotencyRecord
with_response item x = record x { status = completed; response_payload = some item }

complete-find :
    (now user_id : ℕ) (key : Text) (item : OrderItem) (y : IdempotencyRecord)
    → (rows : List IdempotencyRecord) → select_first (in_scope user_id operation key) rows ≡ none
    → is_current now user_id operation key (with_response item y) ≡ true
    → find_record now user_id operation key (complete_record y.id item (rows ++ y ∷ []))
      ≡ some (with_response item y)
unfolding find_record complete_record select_first update_where
complete-find now user_id key item y [] free current =
    let same : record_is y.id y ≡ true = (==_iff y.id y.id).1 refl in rw same (rw current refl)
complete-find now user_id key item y (x ∷ rows) free current =
    elim (Bool-cases (in_scope user_id operation key x)) [
      | inl hit ↦ let bad : some x ≡ none = rw hit at free in cc
      | inr miss ↦
          let later = complete-find now user_id key item y rows (rw miss at free) current in
          elim (Bool-cases (record_is y.id x)) [
            | inl this ↦ rw (this, miss) later
            | inr other ↦ rw (other, miss) later
          ]
    ]

new_record-current :
    (env : CreateEnv) (r : CreateOrderRequest) (item : OrderItem) (now : ℕ)
    → now < env.now + 24 * 60 * 60 * 1000
    → is_current now r.user_id operation r.idempotency_key (with_response item (new_record env r))
      ≡ true
new_record-current env r item now early =
    let user : (r.user_id == r.user_id) ≡ true = (==_iff r.user_id r.user_id).1 refl in
    let soon : ltb now (env.now + 24 * 60 * 60 * 1000) ≡ true = ground arith in
    rw (user, text_eq_refl operation, text_eq_refl r.idempotency_key, soon) refl

-- The unique index lets a record in or keeps it out.
create_record_free :
    (y : IdempotencyRecord) (rows : List IdempotencyRecord)
    → select_first (in_scope y.user_id y.operation y.key) rows ≡ none
    → create_record y rows ≡ some (rows ++ y ∷ [])
unfolding create_record
create_record_free y rows free = rw (free, create_record) refl

create_record_taken :
    (y x : IdempotencyRecord) (rows : List IdempotencyRecord)
    → select_first (in_scope y.user_id y.operation y.key) rows ≡ some x
    → create_record y rows ≡ none
unfolding create_record
create_record_taken y x rows taken = rw (taken, create_record) refl

module _ {X : Type 0} where
  -- What a success leaves in the records.
  abbrev Completes : CreateEnv → World X → Result OrderItem × World X → Type 0
  Completes env w z =
      (item : OrderItem)
      → z.0 ≡ ok item
      → z.1.records ≡ complete_record env.record_id item w.records

  place-Completes :
      (env : CreateEnv) (client : AccountsClient X) (r : CreateOrderRequest) (w : World X)
      → Completes env w (place env client r w)
  unfolding place compensate committed
  place-Completes env client r w =
      let work = unit_of_work env r w.orders w.book in
      either_way (Completes env w) env.database_fails (compensate env client r work.book w)
        (committed env work w) (λ item e. cc e)
        (λ item e. ap (λ i. complete_record env.record_id i w.records) (cc e))

  after_lock-Completes :
      (env : CreateEnv) (client : AccountsClient X) (r : CreateOrderRequest) (o : Option Text)
      → (w : World X) → Completes env w (after_lock env client r o w)
  unfolding after_lock
  after_lock-Completes env client r (some m) w = λ item e. cc e
  after_lock-Completes env client r none w = place-Completes env client r w

  lock_and_place-Completes :
      (env : CreateEnv) (client : AccountsClient X) (r : CreateOrderRequest) (w : World X)
      → Completes env w (lock_and_place env client r w)
  unfolding lock_and_place
  lock_and_place-Completes env client r w =
      let (refused, x) = client.lock_balance (hold env (text "lock:") r) w.accounts in
      after_lock-Completes env client r refused (record w { accounts = x })

  -- A call that finds the response gives it, and changes nothing.
  replay :
      (env : CreateEnv) (client : AccountsClient X) (r : CreateOrderRequest) (item : OrderItem)
      → (y : IdempotencyRecord) (w : World X) → validate_create_order_request env.parse r ≡ none
      → find_record env.now r.user_id operation r.idempotency_key w.records
        ≡ some (with_response item y)
      → create_order env client r w ≡ (ok item, w)
  unfolding create_order replayed
  replay env client r item y w valid found =
      ap (λ o. after_validation env client r o w) valid
      ∙ ap (λ o. after_check env client r (replayed (request_hash env r) o) w) found

  after_record-response :
      (env : CreateEnv) (client : AccountsClient X) (r : CreateOrderRequest) (item : OrderItem)
      → (w w' : World X) (now : ℕ)
      → after_record env client r (create_record (new_record env r) w.records) w ≡ (ok item, w')
      → now < env.now + 24 * 60 * 60 * 1000
      → find_record now r.user_id operation r.idempotency_key w'.records
        ≡ some (with_response item (new_record env r))
  after_record-response env client r item w w' now end early =
      elim (Option-cases
        (select_first (in_scope r.user_id operation r.idempotency_key) w.records)) [
          | inr taken ↦
              let bad : error unique_violation ≡ ok item =
                ap (λ z. z.0)
                  (sym (
                      ap (λ o. after_record env client r o w)
                        (create_record_taken (new_record env r) taken.0 w.records taken.1))
                    ∙ end) in
              cc
          | inl free ↦
              let y = new_record env r in
              let w1 : World X = record w { records = w.records ++ y ∷ [] } in
              let placed : lock_and_place env client r w1 ≡ (ok item, w') =
                sym (ap (λ o. after_record env client r o w) (create_record_free y w.records free))
                ∙ end in
              let done : w'.records ≡ complete_record y.id item w1.records =
                sym (ap (λ z. z.1.records) placed)
                ∙ lock_and_place-Completes env client r w1 item (ap (λ z. z.0) placed) in
              ap (find_record now r.user_id operation r.idempotency_key) done
              ∙ complete-find now r.user_id r.idempotency_key item y w.records free
                  (new_record-current env r item now early)
        ]

  -- A success with a new key has gone past the checks.
  create_order-response :
      (env : CreateEnv) (client : AccountsClient X) (r : CreateOrderRequest) (item : OrderItem)
      → (w w' : World X) (now : ℕ)
      → find_record env.now r.user_id operation r.idempotency_key w.records ≡ none
      → create_order env client r w ≡ (ok item, w')
      → now < env.now + 24 * 60 * 60 * 1000
      → find_record now r.user_id operation r.idempotency_key w'.records
        ≡ some (with_response item (new_record env r))
  unfolding create_order replayed
  create_order-response env client r item w w' now fresh end early =
      elim (Option-cases (validate_create_order_request env.parse r)) [
        | inl valid ↦
            after_record-response env client r item w w' now
              (sym (
                  ap (λ o. after_validation env client r o w) valid
                  ∙ ap (λ o. after_check env client r (replayed (request_hash env r) o) w) fresh)
                ∙ end)
              early
        | inr invalid ↦
            let bad : error invalid.0 ≡ ok item =
              ap (λ z. z.0) (sym (ap (λ o. after_validation env client r o w) invalid.1) ∙ end) in
            cc
      ]

  -- A valid request that is repeated, with the same user and key and within a day after it has
  -- placed an order, gets the same response and changes nothing, neither the orders and the book
  -- nor the balances; this holds even if the rest of the request differs.
  pub create_order_replay :
      (env later : CreateEnv) (client : AccountsClient X) (r again : CreateOrderRequest)
      → (item : OrderItem) (w w' : World X)
      → find_record env.now r.user_id operation r.idempotency_key w.records ≡ none
      → create_order env client r w ≡ (ok item, w')
      → again.user_id ≡ r.user_id
      → again.idempotency_key ≡ r.idempotency_key
      → validate_create_order_request later.parse again ≡ none
      → later.now < env.now + 24 * 60 * 60 * 1000
      → create_order later client again w' ≡ (ok item, w')
  create_order_replay env later client r again item w w' fresh end user key valid early =
      replay later client again item (new_record env r) w' valid
        (rw (user, key) (create_order-response env client r item w w' later.now fresh end early))
