-- ===== src/Orders/Service/Idempotency.antt =====
-- apps/orders/src/orders/idempotency.repository.ts over the list of records of
-- apps/orders/src/database/schema/idempotency-records.schema.ts.
use ether_trade.Prelude.{
  ℕ, Bool, ◌&&◌, Option, none, some, List, [], ◌∷◌, ◌++◌, Text, text_eq, ◌==◌, ltb, select_first,
  update_where,
}
use ether_trade.Orders.Service.Types.{OrderItem, completed, failed, IdempotencyRecord}

-- The unique index on user, operation and key.
abbrev pub in_scope : ℕ → Text → Text → IdempotencyRecord → Bool
in_scope user_id operation key r =
    r.user_id == user_id && text_eq r.operation operation && text_eq r.key key

abbrev pub is_current : ℕ → ℕ → Text → Text → IdempotencyRecord → Bool
is_current now user_id operation key r = in_scope user_id operation key r && ltb now r.expires_at

unfoldable pub find_record : ℕ → ℕ → Text → Text → List IdempotencyRecord → Option IdempotencyRecord
find_record now user_id operation key rows =
    select_first (is_current now user_id operation key) rows

-- Nothing, when the unique index refuses the record.
unfoldable pub create_record :
    IdempotencyRecord → List IdempotencyRecord → Option (List IdempotencyRecord)
create_record r rows = elim (select_first (in_scope r.user_id r.operation r.key) rows) [
  | some _ ↦ none
  | none ↦ some (rows ++ r ∷ [])
]

abbrev pub record_is : ℕ → IdempotencyRecord → Bool
record_is id r = r.id == id

unfoldable pub complete_record : ℕ → OrderItem → List IdempotencyRecord → List IdempotencyRecord
complete_record id item rows =
    update_where (record_is id) (λ r. record r { status = completed; response_payload = some item })
      rows

unfoldable pub fail_record : ℕ → List IdempotencyRecord → List IdempotencyRecord
fail_record id rows = update_where (record_is id) (λ r. record r { status = failed }) rows
