-- ===== src/Lib.antt =====
-- Confluo (Omni-Joiner): a stream processor that joins events of N streams by a key. A consumed
-- Kafka record is stored under its key and its stream; when a key has N streams, the projection of
-- their payloads is published and the state is deleted.
--
-- The parts, and the files of this library that model them:
-- internal/consumer: Handle is Consumer.handle, with one function for each of its sections
--   (first_arrival, next_arrival, correct_late, complete); extractKey is Consumer/Key, the interfaces
--   are Consumer/Parts; Run, the resolvers and commitWithRetry are Consumer/Run.
-- internal/store: Store. A `StateStore` is a record of operations; `*Store` is single_store and
--   `*ScopedStore` is scoped_store.
-- internal/engine and internal/projection: Engine and Projection.
-- internal/keys: Keys, with HashToPartition in Keys/Partition.
-- internal/store at the start: Store/Schema has the sessions and the tables, Store/Columns the texts of
--   the statements: keyspace, table and columns.
-- internal/bloom and internal/egress: Redis and Correction. internal/kafka: Kafka, with ProduceSync in
--   Consumer/Parts.
-- internal/timeout: Timeout. internal/delay: Delay. Their Run is over the firings of the ticker.
-- internal/logger: Logger, with NewFromEnv and the methods in Logger/Methods and the global logger in
--   Logger/Global. internal/health: Health, whose pings
--   take a context and a time, since the three of a check share one deadline.
-- internal/config: Config, with ValidateJoinConfig in Config/Validate and the JSON form of a duration
--   in Config/Duration; LoadJoinConfig is in Startup/Load.
-- internal/metrics: Metrics; the updates are the data type Metric of World/Events.
-- cmd/processor: Processor, the handlers, managers and queues as main puts them together, and Startup:
--   the configuration file (Load), the checks (Check), the retries (Retry), run (Run), main (Main) and
--   the routes of the probes (Server).
-- encoding/hex and encoding/base64, which the parts use: Hex and Base64.
--
-- What is outside the repository is a parameter: `World.Services` has one field for each kind of
-- call of ScyllaDB, Redis and Kafka, the clock and the codecs, and each reply is a function of the
-- history of all calls before. A Go function that makes calls is a program `Go A` over these replies
-- and a `World`, which records the calls, the metrics and the memory of the delay queues; an error
-- does not undo what was done. World/Views reads rows, filter entries and messages off a history, and
-- states the documented behaviour of services that do not fail. A theorem with that hypothesis has
-- a witness in the system of Tests/Lab.
--
-- Strings and byte slices are lists of byte values. Times are nanoseconds as natural numbers,
-- durations are integers. A Go map is an association list whose order stands for the order of a
-- `range` loop. float64 scores are rounded to 53 bits (Delay.float64), in at most eleven doublings
-- of the unit, which is enough for numbers below 2^64.
--
-- `retry` runs on fuel for its attempts: waits of 2, 4, 6, 8, 10 and 10 seconds pass its thirty
-- seconds, so that seven attempts are enough.
--
-- JoinSpec is the join with no services: a table from keys to payloads by stream.
-- Processor/Healthy, Arrivals, Sound, Steps, Refinement, Serve and Join relate the processor to
-- it; JoinSpec/Order and Processor/Reorder are about the order of its events, and
-- Projection/Order and Map about that of the streams. JoinSpec/Deadlines adds expiry to the join:
-- Processor/Expiry, Turn and Moves are about the timeout manager, Whole about it and the
-- consumer, Orphan about a key with one event, Corrections and Lifecycle about an event behind a
-- partial join, Delay/Memory and Durable about the two forms of the delay queue,
-- Delay/Interleaving about one queue's memory between goroutines, and Delay/Scores about its scores.
-- World/Keeps has the rules for invariants of histories, World/Steps those for calls that
-- succeeded, World/Extends what was done before. The Keeps modules of Store, Consumer,
-- Consumer/Run, Timeout, Delay and Processor, and Processor/Stores, lift the rules to the parts
-- of the process; Consumer/Run/Acks and Processor/Commits (which commits are acknowledged),
-- Consumer/Deletes, Store/Columns/Fitting and Processor/Deletes, Foreign, Isolation, Routing and
-- Schema use them.
--
-- Not modelled: the parsing of the flag and the signal handler of main, the HTTP server that listens,
-- closing of sessions and clients, the log lines of the parts, and expiry of rows by the table's time
-- to live.
pub mod Prelude
pub mod Fault
pub mod Json
pub mod Config
pub mod Correction
pub mod Logger
pub mod Health
pub mod World
pub mod Metrics
pub mod Hex
pub mod Base64
pub mod Keys
pub mod Projection
pub mod Engine
pub mod Store
pub mod Redis
pub mod Kafka
pub mod Consumer
pub mod Timeout
pub mod Delay
pub mod JoinSpec
pub mod Processor
pub mod Startup
pub mod Tests
