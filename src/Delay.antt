-- ===== src/Delay.antt =====
-- internal/delay/queue.go: completed joins that are published after a settle delay, kept in memory
-- or in a Redis sorted set.
pub mod Memory
pub mod Durable
pub mod Keeps
pub mod Scores
pub mod Interleaving
use confluo.Prelude.{
  ℕ, zero, suc, ◌+◌, ◌*◌, ◌/◌, ◌%◌, ◌^◌, Text, codes, Bool, not, ◌&&◌, ◌||◌, Option, none, some,
  List, [], ◌∷◌, ◌++◌, is_empty, select, leb, ltb, ◌==◌, if◌then◌else◌,
}
use confluo.Fault.{Result, ok, err}
use confluo.Store.{StateStore}
use confluo.Consumer.{Producer, DelayPublisher}
use confluo.Base64
use confluo.World.{
  zadd, zrem, DelayedItem, Pending, Go, Tick, ticker, ◌>>=◌, ◌>>◌, pure, asks, attempt, best_effort,
  time_now, command, range_by_score, count, egress_failures_total, read_pending, write_pending,
}

-- `Queue`; `redis` says whether a client was given, `memory` names the queue's own list. The logger
-- and the tick are left out.
pub record Queue : Type 0 where
  pub store : Option StateStore
  pub producer : Option Producer
  pub topic : Text
  pub config_name : Text
  pub redis : Bool
  pub redis_key : Text
  pub memory : ℕ

-- `NewQueue`; the last argument names the list that the new queue owns.
abbrev pub new_queue : Option StateStore → Option Producer → Text → Text → Bool → Text → ℕ → Queue
new_queue store producer topic config_name redis redis_key memory = record {
  store = store;
  producer = producer;
  topic = topic;
  config_name = config_name;
  redis = redis;
  redis_key = redis_key;
  memory = memory;
}

abbrev pub default_batch_size : ℕ
default_batch_size = 100

-- `q.redis != nil && q.redisKey != ""`
abbrev pub uses_redis : Queue → Bool
uses_redis q = q.redis && not (is_empty q.redis_key)

-- The least power of two by which a number is below 2^53, within some doublings.
unfoldable pub float_unit : ℕ → ℕ → ℕ → ℕ
float_unit zero unit n = unit
float_unit (suc f) unit n =
    let more = float_unit f (unit * 2) n in if ltb (n / unit) (2 ^ 53) then unit else more

-- To the nearest multiple, and to the even one between two.
unfoldable pub round_even : ℕ → ℕ → ℕ
round_even unit n =
    let q = n / unit in
    let r = n % unit * 2 in
    if ltb r unit || ((r == unit) && (q % 2 == 0)) then q * unit else (q + 1) * unit

-- `float64(x)` of a number of 64 bits: eleven doublings of the unit are enough below 2^64.
unfoldable pub float64 : ℕ → ℕ
unfolding float_unit round_even
float64 n = round_even (float_unit 11 1 n) n

-- A failure to schedule is counted and dropped.
unfoldable pub count_failure : Queue → Go (Unit {0})
count_failure q = count (egress_failures_total q.config_name (codes "delay"))

abbrev pub or_count : Queue → Result (Unit {0}) → Go (Unit {0})
or_count q (ok u) = pure tt
or_count q (err e) = count_failure q

abbrev pub add_member : Queue → ℕ → Result Text → Go (Unit {0})
add_member q score (err e) = count_failure q
add_member q score (ok member) = do
  added ← attempt (command (zadd q.redis_key score member))
  or_count q added

-- `scheduleRedis`
unfoldable pub schedule_redis : Queue → Text → Text → Text → ℕ → Go (Unit {0})
unfolding count_failure
schedule_redis q hash joined key at = do
  member ← attempt (
      asks (λ env.
        env.codec.marshal_item
          (record { h = Base64.encode hash; j = Base64.encode joined; k = Base64.encode key })))
  add_member q (float64 at) member

unfoldable pub schedule_memory : Queue → Text → Text → Text → ℕ → Go (Unit {0})
schedule_memory q hash joined key at = do
  items ← read_pending q.memory
  write_pending q.memory (
      items
      ++ record { join_key_hash = hash; joined_bytes = joined; msg_key = key; publish_at = at }
        ∷ [])

-- `Schedule`
unfoldable pub schedule : Queue → Text → Text → Text → ℕ → Go (Unit {0})
unfolding schedule_redis schedule_memory
schedule q hash joined key at =
    if uses_redis q
    then schedule_redis q hash joined key at
    else schedule_memory q hash joined key at

unfoldable pub send : Option Producer → Text → Text → Text → Go (Unit {0})
send none topic key value = pure tt
send (some p) topic key value = p.produce_sync topic key value

unfoldable pub clean_up : Option StateStore → Text → Go (Unit {0})
clean_up none hash = pure tt
clean_up (some s) hash = best_effort (s.remove hash)

abbrev pub after_send : Queue → Text → Result (Unit {0}) → Go (Unit {0})
after_send q hash (ok u) = clean_up q.store hash
after_send q hash (err e) = count_failure q

-- `publishAndCleanup`
unfoldable pub publish_and_cleanup : Queue → Text → Text → Text → Go (Unit {0})
unfolding send clean_up count_failure
publish_and_cleanup q hash joined key = do
  sent ← attempt (send q.producer q.topic key joined)
  after_send q hash sent

-- `!p.publishAt.After(now)`
abbrev pub is_due : ℕ → Pending → Bool
is_due now p = leb p.publish_at now

unfoldable pub publish_all : Queue → List Pending → Go (Unit {0})
unfolding publish_and_cleanup
publish_all q [] = pure tt
publish_all q (p ∷ rest) = do
  publish_and_cleanup q p.join_key_hash p.joined_bytes p.msg_key
  publish_all q rest

-- The part of `flushDueMemory` that holds the lock: the due items are cut out of the queue.
unfoldable pub cut_due : Queue → Go (List Pending)
cut_due q = do
  now ← time_now
  items ← read_pending q.memory
  write_pending q.memory (select (λ p. not (is_due now p)) items)
  pure (select (is_due now) items)

-- `flushDueMemory`: the lock is given back before anything is published.
unfoldable pub flush_due_memory : Queue → Go (Unit {0})
unfolding cut_due publish_all
flush_due_memory q = do due ← cut_due q; publish_all q due

abbrev pub flush_item : Queue → Result DelayedItem → Go (Unit {0})
flush_item q (err e) = pure tt
flush_item q (ok item) =
    publish_and_cleanup q (Base64.decode item.h) (Base64.decode item.j) (Base64.decode item.k)

-- One round of the loop in `flushDueRedis`. The member is removed however the publication ended.
unfoldable pub flush_member : Queue → Text → Go (Unit {0})
unfolding publish_and_cleanup
flush_member q member = do
  item ← attempt (asks (λ env. env.codec.unmarshal_item member))
  flush_item q item
  best_effort (command (zrem q.redis_key member))

unfoldable pub flush_members : Queue → List Text → Go (Unit {0})
unfolding flush_member
flush_members q [] = pure tt
flush_members q (m ∷ rest) = do flush_member q m; flush_members q rest

abbrev pub flush_reply : Queue → Result (List Text) → Go (Unit {0})
flush_reply q (err e) = pure tt
flush_reply q (ok members) = flush_members q members

-- `flushDueRedis`
unfoldable pub flush_due_redis : Queue → Go (Unit {0})
unfolding flush_members
flush_due_redis q = do
  now ← time_now
  reply ← attempt (range_by_score q.redis_key now default_batch_size)
  flush_reply q reply

-- `flushDue`
unfoldable pub flush_due : Queue → Go (Unit {0})
unfolding flush_due_redis flush_due_memory
flush_due q = if uses_redis q then flush_due_redis q else flush_due_memory q

-- `Queue.Run`
unfoldable pub run : Queue → List Tick → Go (Unit {0})
run q ticks = ticker (flush_due q) ticks

-- A `*Queue` as the consumer's `DelayPublisher`.
unfoldable pub publisher : Queue → DelayPublisher
unfolding schedule
publisher q = record { schedule = schedule q }
