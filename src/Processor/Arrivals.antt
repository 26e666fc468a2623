-- ===== src/Processor/Arrivals.antt =====
-- The two branches of the handler in a healthy system, as the worlds that they leave.
use confluo.Prelude.{Text, true, false, ◌≡◌, none, some, ◌∷◌, arith, length, is_empty, leb}
use confluo.Fault.{ok}
use confluo.Config.{ProcessorConfig, JoinConfig, width}
use confluo.Hex.{encode}
use confluo.Keys.{JoinKey}
use confluo.Engine.{JoinState, process}
use confluo.Projection.{apply}
use confluo.Store.{single_store}
use confluo.World.{Services, World, clock_read, commanded, bf_add}
use confluo.World.Views.{IsHealthy}
use confluo.Consumer.{first_arrival, next_arrival, is_late, complete, finish, publish_or_delay}
use confluo.Processor.{single_manager}
use confluo.Processor.Healthy.{
  plain_handler, upsert_only_lem, upsert_lem, remember_lem, start_timeout_lem, after_write,
  after_upsert, after_timeout, after_publish, publish_now_lem, written,
}

module _ (env : Services) (sound : IsHealthy env) (w : World) (cfg : ProcessorConfig)
    (jc : JoinConfig) where
  abbrev pub after_remember : Text → World → World
  after_remember hash w1 = record w1 {
    history = commanded (bf_add cfg.redis_bloom_key (encode hash)) none ∷ w1.history;
  }

  abbrev pub after_first : JoinKey → Text → Text → World
  after_first key stream payload =
      after_timeout env sound
        (after_remember key.hash
          (after_write env sound w key.hash key.raw jc.config_id stream payload))
        key.hash (plain_handler cfg jc) (single_manager cfg jc)

  pub first_arrival_lem :
      (key : JoinKey) (stream payload : Text)
      → first_arrival (plain_handler cfg jc) key stream payload env w
        ≡ (ok tt, after_first key stream payload)
  unfolding first_arrival single_store
  first_arrival_lem key stream payload =
      let w1 = after_write env sound w key.hash key.raw jc.config_id stream payload in
      ground (
        arith,
        upsert_only_lem env sound w key.hash key.raw jc.config_id stream payload,
        remember_lem env sound w1 key.hash cfg.redis_bloom_key,
        start_timeout_lem env sound (after_remember key.hash w1) key.hash (plain_handler cfg jc)
            (single_manager cfg jc),
      )

  abbrev pub state_written : JoinKey → Text → Text → JoinState
  state_written key stream payload =
      let row = written env sound w key.hash key.raw jc.config_id stream payload in
      record {
        join_key_hash = key.hash;
        join_key_raw = key.raw;
        config_id = jc.config_id;
        participant_data = row.participants;
        arrival_timestamps = row.arrivals;
        is_completed = false;
      }

  abbrev pub tick : World → World
  tick w1 = record w1 { history = clock_read (env.now w1.history) ∷ w1.history }

  pub next_arrival_incomplete :
      (key : JoinKey) (stream payload msg_key : Text)
      → leb (width jc) (length (state_written key stream payload).participant_data) ≡ false
      → next_arrival (plain_handler cfg jc) key stream payload msg_key env w
        ≡ (ok tt, tick (after_upsert env sound w key.hash key.raw jc.config_id stream payload))
  unfolding next_arrival is_late complete finish process single_store
  next_arrival_incomplete key stream payload msg_key h =
      ground (arith, upsert_lem env sound w key.hash key.raw jc.config_id stream payload)

  pub next_arrival_complete :
      (key : JoinKey) (stream payload msg_key : Text) (out : Text)
      → leb (width jc) (length (state_written key stream payload).participant_data) ≡ true
      → apply env.codec (state_written key stream payload).participant_data jc.projection ≡ ok out
      → is_empty out ≡ false
      → let w1 = after_upsert env sound w key.hash key.raw jc.config_id stream payload in
        next_arrival (plain_handler cfg jc) key stream payload msg_key env w ≡ (
          ok tt,
          after_publish env sound
              (tick w1)
              cfg
              jc
              key.hash
              out
              msg_key
              (some (state_written key stream payload))
              (env.now w1.history),
        )
  unfolding next_arrival is_late complete finish process single_store publish_or_delay
  next_arrival_complete key stream payload msg_key out h e q =
      let w1 = after_upsert env sound w key.hash key.raw jc.config_id stream payload in
      ground (
        arith,
        upsert_lem env sound w key.hash key.raw jc.config_id stream payload,
        publish_now_lem env sound (tick w1) cfg jc key.hash out msg_key
            (some (state_written key stream payload)) (env.now w1.history),
      )
