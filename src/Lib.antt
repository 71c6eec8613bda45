-- ===== src/Lib.antt =====
-- Verification library of the PDA backend, the Go service behind handheld warehouse terminals.
--
-- A device sends commands; each names a command identifier, an idempotency key, the version of the
-- task that it saw, and its operator. A service runs a command in a transaction: it looks the key up,
-- loads the task, applies a transition of the domain, saves, and appends an event to an outbox, which
-- a publisher outside the model takes. The files follow the parts of internal/:
--
-- - Common: tests, lists, int64 as bit patterns (Common/Int64), Go's strings package
--   (Common/Text), maps (Common/Table). No code of the program.
-- - Platform: platform/domain (errors by code, actors) and platform/event (the envelope);
--   Platform/Results is Go's `(value, error)` over a state.
-- - Execution: execution/domain/task.go (Execution/Task), execution/adapters/memory/store.go
--   (Execution/Store), execution/application/task_service.go (Execution/Service), which takes its
--   ports as a record and is instantiated with the in-memory store.
-- - Movement: execution/movement: the domain (Movement/Task), CheckMove and ApplyMove on the stock
--   (Movement/Stock), the other statements of adapters/postgres/store.go (Movement/Database) and
--   application/services.go (Movement/Service).
-- - Receiving: execution/receiving/domain/receiving.go.
-- - Counting: inventory/domain/inventory.go, the count tasks (Counting/Task); the count commands of
--   inventory/application/service.go with their statements (Counting/Service).
-- - Transfer: Transfer of inventory/application/service.go, with its statements of
--   inventory/adapters/postgres/store.go (Transfer/Service), over the rows of Movement/Stock.
-- - Shipping: shipping/domain/shipment.go.
-- - Wmstask: wmstask/command.go and service.go: tasks that the warehouse system dispatches, with the
--   rows of their tables (Wmstask/Rows), the statements on them (Wmstask/Statements) and the four
--   calls of an operator (Wmstask/Service).
-- - Identity: identity/domain, identity/ports (Identity/Ports), adapters/postgres/store.go
--   (Identity/Operators), adapters/postgres/session.go: sessions and refresh tokens
--   (Identity/Sessions), access tokens (Identity/Tokens); application/service.go (Identity/Service).
-- - Ingestion: integration/adapters/kafka: integration_envelope.go (Ingestion/Contract),
--   wms_task_consumer.go with its statements (Ingestion/Rows, Ingestion/Consumer) and
--   integration_relay.go (Ingestion/Relay).
--
-- A method on a Go pointer returns the object as it leaves it, beside the error. A function keeps the
-- name of the source in snake case. A transaction of Postgres gives back the first state when its
-- function fails; the in-memory store rolls nothing back. Statements of SQL are functions on lists of
-- rows, and a statement that breaks a key or a check of the schema fails.
--
-- Bounds: an int64 is its bit pattern, a number below 2 ^ 64, and wraps; a quantity of a column with
-- a check is a number, whose sums fail from 2 ^ 63 on. A time is its nanoseconds since the Unix epoch,
-- a UUID its number with 0 for the nil one, and in Identity its text. JSON that the service writes and
-- reads back is the value that it encodes. Upper and lower case, and folding, are those of characters
-- that reach an ASCII letter. All recursion is structural, so that no fuel is used.
--
-- Parameters: base64, JSON, HMAC and RSA in Identity/Tokens, Argon2id, the text of a UUID, SHA-256,
-- the arithmetic of float64 in Wmstask, what the consumer reads of a message, the limits of the
-- columns that it writes, the answers of Kafka and of the publisher, whether a statement of the
-- relay runs and in which order UPDATE returns its rows, new identifiers and the readings of the
-- clock, of which a call of Identity and a cycle of the relay take one.
--
-- Calls come one after another: transactions that overlap, the three readers of dispatched tasks
-- and the replicas of the relay are not modelled.
--
-- Not modelled: HTTP, Redis and configuration; the generic consumer, the consumer of receipts and
-- the worker of domain_outbox; the clients of the warehouse system; the application services of
-- receiving and shipping; the table warehouse_task, but for the queue of dispatched tasks; the
-- listings other than the task board's; the counters of the dashboard; the acknowledgement of a
-- delivery.
pub mod Common
pub mod Platform
pub mod Execution
pub mod Movement
pub mod Receiving
pub mod Counting
pub mod Shipping
pub mod Transfer
pub mod Wmstask
pub mod Identity
pub mod Ingestion
