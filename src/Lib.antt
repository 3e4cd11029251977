-- ===== src/Lib.antt =====
-- A model of GreenLab, a platform of Go services for the telemetry of devices, with its proofs.
--
-- Devices send readings over HTTP to services/ingestion, which checks them and publishes them to
-- Kafka; services/alert-notification reads them from there and evaluates the alert rules of their
-- channel; services/query-realtime pushes them to subscribers;
-- services/iam keeps the accounts and their sessions; services/device-registry keeps the devices,
-- their API keys and channels, and tells ingestion what a key may write to.
--
-- Ingestion (services/ingestion/internal):
--   Domain: domain/errors.go, reading.go and schema.go: errors, readings, and the validation of
--     channel IDs and instants.
--   Batch, Compact: transport/http/deserialize.go and resolve_td_offsets.go: the pipeline of the
--     compact formats, from a parsed batch to an input of the service.
--   Crc, Binary: transport/http/deserialize_binary.go: the checksum and the binary frame, with the
--     frame's layout as its comment describes it (Binary/Layout).
--   Positional: transport/http/deserialize_ojson.go and deserialize_msgpack.go.
--   Service: application/ingest_service.go: Ingest, IngestBatch, IngestReplay and groupByTimestamp.
--   Handler: transport/http/handler.go: the handlers Ingest, BulkIngest, Replay and ThingSpeak
--     (with ResolveChannelByAPIKey of infrastructure/deviceregistry/client.go) and the mapping
--     of errors to responses.
--   ApiKeys: infrastructure/redis/apikey_cache.go and infrastructure/apikey/validator.go: the cache of
--     what device-registry answers.
-- Alerts (services/alert-notification/internal):
--   Rule: domain/alert/rule.go. RuleEngine: application/rule_engine.go: LoadRules and Evaluate.
--   Notification: domain/notification and domain/delivery. Delivery: application/dispatcher.go and the
--     sending methods of notification_service.go.
-- Iam (services/iam/internal):
--   User: domain/auth/user.go and token.go. Store: infrastructure/postgres/user_repo.go,
--   token_repo.go and org_repo.go on tables that are lists of rows.
--   Auth: application/auth_service.go, every method. Auth/Keeps and Auth/Operations carry an
--     invariant of the tables through every operation, Auth/Requests through histories of calls;
--     Auth/Spent and Auth/WellFormed are two such invariants. Auth/Passwords describes the table of
--     users after a change of a password, which Auth/Recovery and Auth/Resets are about.
-- Registry (services/device-registry/internal):
--   Device, Channel: domain/device, domain/channel and domain/field. Integers: Go's int where a
--     request may carry a negative number.
--   Tables, Cache: infrastructure/postgres, with keys, foreign keys and transactions, and
--     infrastructure/redis/cache.go, on tables that are lists of rows.
--   Devices, Channels, Provisioning: application/device_service.go, channel_service.go,
--     field_service.go and provision_service.go. Keys: internal_repo.go and internal_service.go.
--   WellFormed, History: the invariant of the tables and histories of operations.
-- Realtime (services/query-realtime/internal):
--   Hub: application/hub.go and domain/realtime/subscription.go: who is subscribed, and what a full
--   buffer keeps (256 messages).
-- Prelude has the shared names: Boolean tests, lists over the native numbers, association lists for
-- Go's maps, tables with unique keys, computations that change a store (Actions), and laws of bit
-- operations. Tests runs the theorems on concrete inputs.
--
-- Conventions. Definitions have the names of the code in snake case. An instant is a number of
-- nanoseconds since the Unix epoch, a byte or a uint16 a number with its wrap-around written out, a
-- float64 an abstract type. A clock reading, a new UUID and the answer of another server are
-- arguments of a call. Ingestion and Alerts return the trace of what they send; Iam and Registry pass
-- their store on as a state. What a map's iteration order would decide holds for every order of the list.
-- No function runs on fuel: the loops are recursions on lists or on the number of rounds left, which
-- is the constant of the source (8 shifts of the checksum, 8 bits of the field mask, 8 field
-- indices, 3 attempts).
--
-- Parameters: JSON and MessagePack decoding, the conversion to and the comparisons of float64,
-- request validation, cryptography, UUIDs, address parsing and string functions of the Go library.
--
-- Not modelled: the CRUD of alert rules and the listings of notifications; tenants and their
-- API keys; the listings of device-registry and its deprecation of schemas; the queries of query-realtime, normalization, supporting and the shared packages and SDKs;
-- Kafka, Redis, InfluxDB, SMTP and HTTP glue, configuration, logging and start-up code; the frontend
-- and scripts.
pub mod Alerts
pub mod Iam
pub mod Ingestion
pub mod Prelude
pub mod Realtime
pub mod Registry
pub mod Tests
