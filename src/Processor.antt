-- ===== src/Processor.antt =====
-- cmd/processor/main.go: how the components are put together, with one join configuration or with
-- several.
pub mod Healthy
pub mod Arrivals
pub mod Sound
pub mod Steps
pub mod Refinement
pub mod Serve
pub mod Join
pub mod Reorder
pub mod Keeps
pub mod Deletes
pub mod Stores
pub mod Foreign
pub mod Isolation
pub mod Schema
pub mod Routing
pub mod Commits
pub mod Corrections
pub mod Lifecycle
pub mod Orphan
pub mod Moves
pub mod Whole
pub mod Expiry
pub mod Turn
use confluo.Prelude.{
  ℕ, List, [], ◌∷◌, ◌==◌, Text, codes, Bool, true, ◌&&◌, not, Option, none, some, ◌++◌, is_empty,
  if◌then◌else◌,
}
use confluo.Prelude.Int.{is_pos, pos}
use confluo.Config.{ProcessorConfig, JoinConfig}
use confluo.Store.{single_store, scoped_store}
use confluo.Redis.{PartialTracker, bloom_filter, redis_partial_tracker}
use confluo.Consumer.{new_handler, Handler, kafka_producer}
use confluo.Timeout
use confluo.Timeout.{Manager, scheduler}
use confluo.Delay.{new_queue, Queue, publisher}
use confluo.World.{Codec, Go}
use confluo.Consumer.Run.{Poll, run, resolver_from_map, run_single}

-- `rdb != nil`
abbrev pub has_redis : ProcessorConfig → Bool
has_redis cfg = not (is_empty cfg.redis_addr)

abbrev pub partial_key : Text
partial_key = codes "omni_joiner:partial"

abbrev pub timeouts_key : Text
timeouts_key = codes "omni_joiner:timeouts"

abbrev pub delay_key : JoinConfig → Text
delay_key jc = codes "omni_joiner:delay:" ++ jc.name

-- The tracker that the timeout manager and the handler share.
unfoldable pub single_tracker : ProcessorConfig → Option PartialTracker
single_tracker cfg =
    if has_redis cfg && not (is_empty cfg.corrections_topic)
    then some (redis_partial_tracker partial_key)
    else none

unfoldable pub single_manager : ProcessorConfig → JoinConfig → Manager
unfolding single_tracker
single_manager cfg jc = Timeout.new (record {
  store = single_store;
  join_config = jc;
  producer = some kafka_producer;
  egress_topic = cfg.egress_topic;
  set_key = timeouts_key;
  poll_interval = pos 0;
  batch_size = 0;
  partial_tracker = single_tracker cfg;
})

-- `rdb` is passed as an interface, which is not nil even where the pointer is; without Redis the
-- empty key keeps the queue in memory.
unfoldable pub single_queue : ProcessorConfig → JoinConfig → Queue
single_queue cfg jc =
    new_queue (some single_store) (some kafka_producer) cfg.egress_topic jc.name true
      (if has_redis cfg then delay_key jc else codes "") 0

-- The handler of `runSingleConfig`, with what `run` made for it.
unfoldable pub single_handler : ProcessorConfig → JoinConfig → Handler
unfolding single_tracker
single_handler cfg jc =
    new_handler single_store jc (some kafka_producer) cfg.egress_topic
      (if has_redis cfg then some (bloom_filter cfg.redis_bloom_key) else none)
      (if has_redis cfg then some (scheduler (single_manager cfg jc)) else none)
      (if is_pos jc.post_join_delay then some (publisher (single_queue cfg jc)) else none)
      (single_tracker cfg) cfg.corrections_topic

-- A Redis key of one configuration: `prefix + ":" + jc.ConfigID.String()`.
abbrev pub scoped_key : Codec → Text → JoinConfig → Text
scoped_key c prefix jc = prefix ++ codes ":" ++ c.uuid_string jc.config_id

unfoldable pub multi_tracker : Codec → ProcessorConfig → JoinConfig → Option PartialTracker
multi_tracker c cfg jc =
    if has_redis cfg && not (is_empty cfg.corrections_topic)
    then some (redis_partial_tracker (scoped_key c partial_key jc))
    else none

unfoldable pub multi_manager : Codec → ProcessorConfig → JoinConfig → Manager
unfolding multi_tracker
multi_manager c cfg jc = Timeout.new (record {
  store = scoped_store jc.config_id;
  join_config = jc;
  producer = some kafka_producer;
  egress_topic = cfg.egress_topic;
  set_key = scoped_key c timeouts_key jc;
  poll_interval = pos 0;
  batch_size = 0;
  partial_tracker = multi_tracker c cfg jc;
})

-- Each configuration has a queue of its own. Its list is named by the id of the configuration, so ids are
-- taken to differ.
unfoldable pub multi_queue : ProcessorConfig → JoinConfig → Queue
multi_queue cfg jc =
    new_queue (some (scoped_store jc.config_id)) (some kafka_producer) cfg.egress_topic jc.name true
      (if has_redis cfg then delay_key jc else codes "") jc.config_id

-- A handler of `runMultiConfig`.
unfoldable pub multi_handler : Codec → ProcessorConfig → JoinConfig → Handler
unfolding multi_tracker
multi_handler c cfg jc =
    new_handler (scoped_store jc.config_id) jc (some kafka_producer) cfg.egress_topic
      (if has_redis cfg then some (bloom_filter (scoped_key c cfg.redis_bloom_key jc)) else none)
      (if has_redis cfg then some (scheduler (multi_manager c cfg jc)) else none)
      (if is_pos jc.post_join_delay then some (publisher (multi_queue cfg jc)) else none)
      (multi_tracker c cfg jc) cfg.corrections_topic

-- `handlersByConfigID[id] = handler`
unfoldable pub put_handler : ℕ → Handler → List (ℕ × Handler) → List (ℕ × Handler)
put_handler id h [] = (id, h) ∷ []
put_handler id h ((j, g) ∷ m) = if j == id then (j, h) ∷ m else (j, g) ∷ put_handler id h m

-- The loop of `runMultiConfig`, into the map so far.
unfoldable pub multi_handlers :
    Codec → ProcessorConfig → List JoinConfig → List (ℕ × Handler) → List (ℕ × Handler)
unfolding put_handler
multi_handlers c cfg [] m = m
multi_handlers c cfg (jc ∷ jcs) m =
    multi_handlers c cfg jcs (put_handler jc.config_id (multi_handler c cfg jc) m)

-- `runMultiConfig`, for the turns that the client gives it.
unfoldable pub run_multi_config :
    Codec → ProcessorConfig → List JoinConfig → List Poll → Go (Unit {0})
unfolding multi_handlers
run_multi_config c cfg jcs polls = run (resolver_from_map c (multi_handlers c cfg jcs [])) polls

-- `runSingleConfig`
unfoldable pub run_single_config : ProcessorConfig → JoinConfig → List Poll → Go (Unit {0})
run_single_config cfg jc polls = run_single (single_handler cfg jc) polls
