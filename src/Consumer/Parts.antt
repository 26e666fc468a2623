-- ===== src/Consumer/Parts.antt =====
-- What a handler is made of: the interfaces of internal/consumer/consumer.go, its record type, and the
-- Kafka client as a producer.
use confluo.Prelude.{ℕ, Text, Option, List, [], ◌∷◌}
use confluo.Config.{JoinConfig}
use confluo.Store.{StateStore}
use confluo.Redis.{BloomChecker, PartialTracker}
use confluo.World.{Go, wrap_with, produce}

-- The interfaces `Producer`, `TimeoutScheduler` and `DelayPublisher`; times are in nanoseconds.
pub record Producer : Type 0 where
  pub produce_sync : Text → Text → Text → Go (Unit {0})

pub record TimeoutScheduler : Type 0 where
  pub schedule_timeout : Text → ℕ → Go (Unit {0})

pub record DelayPublisher : Type 0 where
  pub schedule : Text → Text → Text → ℕ → Go (Unit {0})

-- `Record`: a consumed message. A tombstone has a nil value.
pub record Record : Type 0 where
  pub topic : Text
  pub key : Text
  pub value : Option Text
  pub headers : List (Text × Text)

-- `LateArrivalTracker`, which `*RedisPartialTracker` is.
abbrev pub LateArrivalTracker : Type 0
LateArrivalTracker = PartialTracker

-- `Handler`; `none` stands for a nil interface. The logger is left out.
pub record Handler : Type 0 where
  pub store : StateStore
  pub join_cfg : JoinConfig
  pub producer : Option Producer
  pub egress_topic : Text
  pub bloom : Option BloomChecker
  pub timeout_sched : Option TimeoutScheduler
  pub delay_queue : Option DelayPublisher
  pub late_tracker : Option LateArrivalTracker
  pub corrections_topic : Text

-- `NewHandler`
abbrev pub new_handler :
    StateStore
    → JoinConfig
    → Option Producer
    → Text
    → Option BloomChecker
    → Option TimeoutScheduler
    → Option DelayPublisher
    → Option LateArrivalTracker
    → Text
    → Handler
new_handler store cfg producer egress bloom sched queue tracker corrections = record {
  store = store;
  join_cfg = cfg;
  producer = producer;
  egress_topic = egress;
  bloom = bloom;
  timeout_sched = sched;
  delay_queue = queue;
  late_tracker = tracker;
  corrections_topic = corrections;
}

-- `internal/kafka.Client` as a `Producer`.
unfoldable pub kafka_producer : Producer
kafka_producer = record {
  produce_sync = λ topic key value.
      wrap_with "produce %s" (confluo.Fault.text topic ∷ []) (produce topic key value);
}
