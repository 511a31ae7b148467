-- ===== src/Orders/Service/Sequence.antt =====
-- The sequence numbers of the events that `createOrder` writes
-- (apps/orders/src/orders/orders.service.ts).
use ether_trade.Prelude.{ℕ, zero, suc, ◌+◌, List, [], ◌∷◌, ◌++◌}
use ether_trade.Orders.Outbox.Types.{OutboxEvent, Body, placed, cancelled, filled, trade_executed}

-- The number of an event, if its kind has one.
abbrev pub sequence_of : Body → List ℕ
sequence_of (placed e) = e.sequence_id ∷ []
sequence_of (cancelled e) = e.sequence_id ∷ []
sequence_of (filled e) = []
sequence_of (trade_executed e) = e.sequence_id ∷ []

abbrev pub sequences_of : List OutboxEvent → List ℕ
sequences_of [] = []
sequences_of (e ∷ es) = sequence_of e.payload.payload ++ sequences_of es

abbrev pub count_from : ℕ → ℕ → List ℕ
count_from n zero = []
count_from n (suc k) = n ∷ count_from (n + 1) k
