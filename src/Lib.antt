-- ===== src/Lib.antt =====
-- ThemeParkNFT: a visitor's ticket is bound to a wristband at the gate, the wristband is scanned at the
-- rides, the scans travel through Kafka to Postgres and to daily sets in Redis, vouchers are delegated
-- to participants, and at the end of a day the minter resolves wallets and mints attendance tokens.
--
-- The parts, and the files that model them:
--   internal/models/models.go and the sentinel errors: Models, Errors.
--   internal/config/config.go: Config, with the defaults of the environment.
--   internal/redis/client.go: Redis.Client, over the commands and Lua scripts of Redis.Commands, on
--     the key space of Keyspace and the key names of Keyspace.Keys. Redis.Links says when the index
--     of wristbands and that of tickets agree; Redis.Keeps, Redis.Methods and Redis.Frame carry the
--     lemmas.
--   internal/gate/qr.go, binding.go, ride_scan.go and internal/auth/txn_check.go: Gate.Qr,
--     Gate.Tickets, Gate.Binding, Gate.RideScan. Gate.Routes is the handlers of cmd/gate/main.go
--     with their status codes, and Gate.History a history of its requests with time between them:
--     they run whole, one after another. Gate.Overlap lets requests overlap, as single methods of
--     the Redis client between whole requests, where SetBindingStatus, which reads and then writes,
--     is one unit; Gate.Race is about what may come between the two. Gate.Abstract is what the gate
--     promises of its bindings, a map of wristbands to tickets with what each event may do to it,
--     and Gate.Refines compares the two.
--   internal/pipeline/handler.go: Pipeline.Handler. internal/kafka/consumer.go: Kafka.Consumer,
--     which calls the handler, retries it, and writes dead letters. Kafka.Run is its pool of
--     workers: a step is one fetch, one take from the channel, or one message processed to its end.
--   internal/postgres/repository.go and internal/minter/pg_ride_source.go: Postgres.Scans,
--     Postgres.Accounts, Postgres.Mints, Postgres.Rides, on the tables of migrations/.
--   internal/voucher/voucher.go: Voucher.Service. internal/voucher/link.go: Voucher.Link.
--     Voucher.Routes is the handlers of cmd/voucher/main.go, and Voucher.History a history of the
--     service's requests.
--   internal/sui/client.go, reader.go, wallet.go: Sui.Client, Sui.Reader, Sui.Wallet, with the
--     retries in Sui.Retry and the BCS encoding of a mint's arguments in Sui.Encode. Sui.Answers
--     describes the answers independently.
--   internal/minter/resolver.go and batch_mint.go: Minter.Resolver and Minter.Batch. Minter.Routes
--     is the handlers of cmd/minter/main.go. internal/auth/google.go: Auth.
--     internal/storage/cache.go: Storage.Cache.
--   World: the state of Redis, Postgres, Kafka and the chain, the actions on it, and the rules for
--     what an action guarantees (World.Hoare). Prelude, Text, Calendar: lists, texts and dates.
--     Examples: runs.
--
-- How the code is modelled. A Go method is an action: from a world it gives a result or an error, and a
-- world. A world has a state and, for each backend, a schedule of faults: each call passes, is lost
-- before its effect, or is lost after it, and past the end of a schedule every call passes. A theorem
-- about all worlds is about all such failures. An error keeps the effects that came before it, as in the
-- code. Context cancellation is a parameter of the consumer. A handler reads one time. Times are at or
-- after the epoch and locations are UTC. A key of Redis reads as absent when the time is past its
-- expiry. JSON values are kept decoded, and a value of another shape is an error of decoding. A wrapped
-- error keeps its sentinel and a context; the text of `%w: detail` is not kept in that order. CreatedAt
-- and UpdatedAt columns are left out. Of the foreign keys only that of guardians is checked: the other
-- statements get ids that their callers have read or written before. Lengths of columns are not bounded.
-- QR timestamps are int64, as 64-bit patterns. The HMAC, the transaction check, the metadata provider,
-- the digests of the chain, and the answers of the pinning service are parameters, and so are the JWT
-- libraries, the Sui SDK with the answers of the node, its hashes and key derivation, and the context of
-- a call. Of an HTTP answer the status and the body are kept; the line break that http.Error appends is
-- not. The minter reaches the chain by the interface of internal/sui/minter.go: a call that passes
-- appends to the chain of the world, and Sui.Client is the client behind that interface by itself. The
-- quantity of a purchase is a natural number; a negative one stops the source in `make`. Dates of
-- queries are texts YYYY-MM-DD: other spellings that a cast to date accepts, and its errors, are left
-- out. A query with LIMIT 1 and no order answers the first row of its table, or of its walk. The Kafka
-- messages of a run are those of one partition. The voucher service and the minter, too, serve whole
-- requests one after another.
--
-- Loops and fuel: the consumer and the Sui client count their attempts down; a walk up the guardians
-- takes one step more than the participant's id, since a guardian is there before its dependents; the
-- loop over the pages of a wallet has fuel, as the node decides when they end; all other loops go over
-- lists.
--
-- Not modelled: start-up, wiring and shutdown of the mains, the Kafka producer, Pinata, the artwork and
-- the metadata documents, the demo, the load generator, migrations, health checks and telemetry. They
-- call libraries and services, or are pure I/O.
pub mod Prelude
pub mod Models
pub mod Errors
pub mod Keyspace
pub mod World
pub mod Config
pub mod Text
pub mod Redis
pub mod Http
pub mod Gate
pub mod Calendar
pub mod Postgres
pub mod Pipeline
pub mod Kafka
pub mod Voucher
pub mod Minter
pub mod Storage
pub mod Sui
pub mod Auth
pub mod Examples
