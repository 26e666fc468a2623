-- ===== src/Timeout.antt =====
-- internal/timeout/manager.go: the deadlines of join keys, kept in a Redis sorted set, and what
-- happens to a key whose deadline has passed.
pub mod Keeps
use confluo.Prelude.{
  ℕ, ◌/◌, Text, codes, Option, none, some, List, [], ◌∷◌, length, leb, ◌==◌, is_empty,
  if◌then◌else◌,
}
use confluo.Prelude.{zero}
use confluo.Prelude.Int.{ℤ, pos}
use confluo.Fault.{Result, ok, err}
use confluo.Config.{EgressPolicy, inner, partial, other, JoinConfig, width}
use confluo.Hex.{encode, decode}
use confluo.Projection
use confluo.Engine.{JoinState}
use confluo.Store.{StateStore}
use confluo.Redis.{PartialTracker}
use confluo.Consumer.{Producer, TimeoutScheduler}
use confluo.World.{
  zadd, zrem, Go, Tick, ticker, ◌>>=◌, ◌>>◌, pure, asks, wrap, attempt, best_effort, time_now,
  command, range_by_score, count, egress_failures_total,
}

-- `Manager`; the logger is left out, and the Redis client is never nil.
pub record Manager : Type 0 where
  pub store : StateStore
  pub join_cfg : JoinConfig
  pub producer : Option Producer
  pub egress_topic : Text
  pub set_key : Text
  pub poll_interval : ℤ
  pub batch_size : ℕ
  pub partial_tracker : Option PartialTracker

abbrev pub default_batch_size : ℕ
default_batch_size = 100

-- Five seconds.
abbrev pub default_poll_interval : ℤ
default_poll_interval = pos 5000000000

-- `Config`; its `PartialTracker` has `Add` alone.
pub record ManagerConfig : Type 0 where
  pub store : StateStore
  pub join_config : JoinConfig
  pub producer : Option Producer
  pub egress_topic : Text
  pub set_key : Text
  pub poll_interval : ℤ
  pub batch_size : ℕ
  pub partial_tracker : Option PartialTracker

abbrev pub or_default_interval : ℤ → ℤ
or_default_interval (pos zero) = default_poll_interval
or_default_interval d = d

-- `New`
unfoldable pub new : ManagerConfig → Manager
new cfg = record {
  store = cfg.store;
  join_cfg = cfg.join_config;
  producer = cfg.producer;
  egress_topic = cfg.egress_topic;
  set_key = if is_empty cfg.set_key then codes "omni_joiner:timeouts" else cfg.set_key;
  poll_interval = or_default_interval cfg.poll_interval;
  batch_size = if cfg.batch_size == 0 then default_batch_size else cfg.batch_size;
  partial_tracker = cfg.partial_tracker;
}

-- `time.Time.Unix`, of nanoseconds.
abbrev pub unix : ℕ → ℕ
unix t = t / 1000000000

-- `ScheduleTimeout`. Seconds are exact in a float64.
unfoldable pub schedule_timeout : Manager → Text → ℕ → Go (Unit {0})
schedule_timeout m hash deadline =
    wrap "schedule timeout" (command (zadd m.set_key (unix deadline) (encode hash)))

-- `m.redis.ZRem(...)`, whose error nobody reads.
unfoldable pub unschedule : Manager → Text → Go (Unit {0})
unschedule m member = best_effort (command (zrem m.set_key member))

-- The last two calls for a key that is done with.
unfoldable pub discard : Manager → Text → Text → Go (Unit {0})
unfolding unschedule
discard m member hash = do best_effort (m.store.remove hash); unschedule m member

unfoldable pub track_partial : Option PartialTracker → Text → Go (Unit {0})
track_partial none hash = pure tt
track_partial (some t) hash = best_effort (t.add hash)

abbrev pub after_publish : Manager → Text → Text → Result (Unit {0}) → Go (Unit {0})
after_publish m member hash (ok u) = do track_partial m.partial_tracker hash; discard m member hash
after_publish m member hash (err e) =
    count (egress_failures_total m.join_cfg.name (codes "timeout"))

-- `publish`
abbrev pub publish : Producer → Text → Text → Text → Go (Unit {0})
publish p topic value key = p.produce_sync topic key value

unfoldable pub send_partial : Option Producer → Text → Text → Text → Go (Unit {0})
send_partial none topic value key = pure tt
send_partial (some p) topic value key = publish p topic value key

abbrev pub publish_partial : Manager → Text → Text → Result Text → Go (Unit {0})
publish_partial m member hash (err e) = pure tt
publish_partial m member hash (ok bytes) = do
  sent ← attempt (send_partial m.producer m.egress_topic bytes hash)
  after_publish m member hash sent

-- A key whose state is there and incomplete.
unfoldable pub expire : Manager → EgressPolicy → Text → Text → JoinState → Go (Unit {0})
unfolding track_partial discard send_partial
expire m partial member hash s = do
  bytes ←
      attempt (asks (λ env. Projection.apply env.codec s.participant_data m.join_cfg.projection))
  publish_partial m member hash bytes
expire m inner member hash s = discard m member hash
expire m (other p) member hash s = discard m member hash

abbrev pub examine : Manager → Text → Text → Result (Option JoinState) → Go (Unit {0})
examine m member hash (err e) = unschedule m member
examine m member hash (ok none) = unschedule m member
examine m member hash (ok (some s)) =
    if leb (width m.join_cfg) (length s.participant_data)
    then unschedule m member
    else expire m m.join_cfg.egress member hash s

abbrev pub process_decoded : Manager → Text → Option Text → Go (Unit {0})
process_decoded m member none = pure tt
process_decoded m member (some hash) = do
  state ← attempt (m.store.get hash)
  examine m member hash state

-- One round of the loop in `processDue`; it never returns an error.
unfoldable pub process_member : Manager → Text → Go (Unit {0})
unfolding expire unschedule width decode
process_member m member = process_decoded m member (decode member)

unfoldable pub process_members : Manager → List Text → Go (Unit {0})
unfolding process_member
process_members m [] = pure tt
process_members m (member ∷ rest) = do process_member m member; process_members m rest

-- `processDue`
unfoldable pub process_due : Manager → Go (Unit {0})
unfolding process_members
process_due m = do
  now ← time_now
  members ← range_by_score m.set_key (unix now) m.batch_size
  process_members m members

-- `Manager.Run`
unfoldable pub run : Manager → List Tick → Go (Unit {0})
run m ticks = ticker (process_due m) ticks

-- A `*Manager` as the consumer's `TimeoutScheduler`.
unfoldable pub scheduler : Manager → TimeoutScheduler
unfolding schedule_timeout
scheduler m = record { schedule_timeout = schedule_timeout m }
