-- ===== src/Lib.antt =====
-- The services of ether-trade: the accounts service with its balances and ledger, the orders service
-- with its order book, matching engine and outbox, copy trading, and the transfers between the
-- platform and the chain.
--
-- The program. A client's order reaches the orders service (apps/orders), which locks the funds of
-- the order at the accounts service (apps/accounts), matches it against the book in Valkey and
-- writes the rows of the orders and the events of the trades in one database transaction. A relay
-- publishes the events to Kafka, and the accounts service settles each trade between four accounts.
-- The copy trading service (apps/copy-trading) reads the same events and places a follower's order
-- at the orders service for each active subscription to the master. The transfers service
-- (apps/transfers) locks the funds of a withdrawal at the accounts service, pays it out on the chain
-- and debits it, and scans the chain for deposits, which it credits at the accounts service.
--
-- The files.
--   Prelude: Boolean tests, lists, tables as lists of rows with their keys, texts, integers.
--   Decimal: prices and amounts as numbers of units of 10^-8, and the laws of `toFixed(8)`.
--   Transaction: a PostgreSQL transaction as the services use it, with rollback.
--   Accounts/Types, Accounts/Repository: apps/accounts/src/balances/balances.repository.ts.
--     Queries and Operations are its methods (deposit, creditDeposit, lock, unlock, debitWithdrawal,
--     findOrCreate); Spec says what they promise; the other files prove it.
--   Accounts/Service: balances.service.ts. Amounts reads and writes decimals, Requests is the
--     validation and the operations.
--   Accounts/Settlement: apps/accounts/src/consumers. Calculation is utils/trades-settlement.util.ts,
--     Posting and Messages are `handleMessage`; the other files prove what it does.
--   Orders/Types, Orders/Repository, Orders/Orderbook: the tables, orders.repository.ts and
--     orderbook.service.ts of apps/orders/src/orders.
--   Orders/Matching: matching-engine.service.ts. Loop and Engine are `executeMatch`.
--   Orders/Outbox: apps/orders/src/outbox. Repository, Relay (`processBatch` and the delays of
--     `runPollLoop`) and the retention job.
--   Orders/Service: orders.service.ts and idempotency.repository.ts. Create is `createOrder`, Cancel
--     the other methods, Events the outbox events that both write.
--   Common/Batches: libs/common/src/utils/async.utils.ts.
--   CopyTrading/Types, CopyTrading/Repository: the tables and repositories of
--     apps/copy-trading/src/database. Calculator: calculator/copy-ratio.calculator.ts and
--     risk/risk-guard.service.ts.
--   CopyTrading/Caches, CopyTrading/Service: copy-trading.service.ts, its state with the map of
--     active masters and the cache, its calls, and what they keep.
--   CopyTrading/Replication: lock/distributed-lock.service.ts and
--     consumers/master-trade-replication.consumer.ts. Follower is one subscriber, Messages
--     `handleMessage`; the other files prove what it does.
--   Transfers/Types, Transfers/Repository: the tables and transfers/transfers.repository.ts of
--     apps/transfers/src. Units and Uuids: common/utils.
--   Transfers/Withdrawals: Request is transfers/transfers.service.ts, Processor is
--     transfers/processors/withdrawal-processor.service.ts; the other files are about the
--     funds that are locked for open withdrawals.
--   Transfers/Deposits: Processor is transfers/processors/deposit-processor.service.ts, Scanner is
--     transfers/blockchain/deposit-scanner.service.ts; the other files are about what is credited
--     and found.
--   Tests and Sample, in several places: the theorems at concrete inputs, and what they run on.
--   Solvency: the hold of an order against what its trades and its cancellation take.
--
-- State. A table is a list of rows; a call takes the database before and gives a result and the
-- database after. What other transactions commit while a call waits for a row lock or before it
-- inserts is a function of the environment, which the theorems do not restrict beyond what they
-- say. A statement that fails makes every later one of its transaction fail. The order book is
-- outside the transaction, as it is in the code. Ids and times are numbers that the environment
-- draws; texts are lists of character codes.
--
-- Bounds. Amounts are unbounded: the 28 digits of the numeric columns are not modelled, and strings
-- of requests have at most eight decimals. The cleanup of the outbox runs on fuel, one more than
-- the number of rows, which is enough since a full batch deletes a thousand of them. A match looks
-- at fifty opposing orders, as the code does. The amounts of copy trading are not below zero, and
-- its slippage is in hundredths of a percent. Batches run on fuel, the length of the list, which is
-- enough since each takes at least one task; the followers of a batch run one after another.
--
-- Parameters. PostgreSQL's order of rows, Valkey's ranking of a sorted set, bignumber.js's parsing
-- and rounding, the hash of a request, Kafka's answer to a batch, and the accounts service as its
-- clients see it, with their contracts in Orders/Service/Saga, Transfers/Withdrawals/Backing and
-- Transfers/Deposits/Credits; what the chain answers.
--
-- Not modelled: the gateway and identity; the services' controllers; the transfers' outbox, which
-- repeats the orders'; the client of the chain; failures of the database in copy trading; the Kafka
-- library around the handlers; timers, logs and telemetry.
pub mod Prelude
pub mod Decimal
pub mod Transaction
pub mod Accounts
pub mod Orders
pub mod Common
pub mod CopyTrading
pub mod Transfers
pub mod Solvency
pub mod Tests
