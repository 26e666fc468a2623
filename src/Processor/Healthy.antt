-- ===== src/Processor/Healthy.antt =====
-- What the parts of the handler do to a healthy system.
use confluo.Prelude.{
  ℕ, ◌+◌, Text, Bool, false, ◌≡◌, Option, none, some, [], ◌∷◌, arith, text_eq_refl, if◌then◌else◌,
}
use confluo.Prelude.Int.{is_pos, to_nat}
use confluo.Fault.{ok}
use confluo.Config.{ProcessorConfig, JoinConfig}
use confluo.Hex.{encode}
use confluo.Engine.{JoinState}
use confluo.Store.{
  upsert_participant, upsert_participant_only, get_state, delete_state, single_store,
}
use confluo.Redis.{bloom_exists, bloom_add, bloom_filter}
use confluo.Timeout.{Manager, schedule_timeout, scheduler, unix}
use confluo.World.{
  Services, World, Assignments, executed, clock_read, scanned, commanded, queried, produced, RowKey,
  update, delete, single, bf_add, bf_exists, zadd,
}
use confluo.World.Views.{IsHealthy, row_after, select_reply, Stored, merge, has_item, sent}
use confluo.Consumer.{
  Handler, kafka_producer, remember, maybe_seen, start_timeout, observe_join, publish_now,
  publish_to,
}
use confluo.Processor.{single_manager}

module _ (env : Services) (sound : IsHealthy env) (w : World) (hash : Text) where
  abbrev pub assigned : Text → ℕ → Text → Text → Assignments
  assigned raw c stream payload = record {
    join_key_raw = raw;
    config_id = some c;
    stream = stream;
    payload = payload;
    arrival = env.now w.history;
  }

  abbrev pub after_write : Text → ℕ → Text → Text → World
  after_write raw c stream payload = record w {
    history =
        executed (update (single hash) (assigned raw c stream payload)) none
        ∷ clock_read (env.now w.history)
        ∷ w.history;
  }

  pub upsert_only_lem :
      (raw : Text) (c : ℕ) (stream payload : Text)
      → upsert_participant_only hash raw c stream payload env w
        ≡ (ok tt, after_write raw c stream payload)
  unfolding upsert_participant_only
  upsert_only_lem raw c stream payload = rw (
      sound.exec_ok (clock_read (env.now w.history) ∷ w.history)
        (update (single hash) (assigned raw c stream payload)))

  abbrev pub written : Text → ℕ → Text → Text → Stored
  written raw c stream payload =
      merge (assigned raw c stream payload) (row_after w.history (single hash))

  abbrev pub after_upsert : Text → ℕ → Text → Text → World
  after_upsert raw c stream payload = record w {
    history =
        scanned (single hash) (select_reply (single hash) (some (written raw c stream payload)))
        ∷ (after_write raw c stream payload).history;
  }

  row-after_write :
      (raw : Text) (c : ℕ) (stream payload : Text)
      → row_after (after_write raw c stream payload).history (single hash)
        ≡ some (written raw c stream payload)
  unfolding row_after
  row-after_write raw c stream payload = ground (arith, text_eq_refl hash)

  pub upsert_lem :
      (raw : Text) (c : ℕ) (stream payload : Text)
      → upsert_participant hash raw c stream payload env w ≡ (
        ok (
            some (record {
              join_key_hash = hash;
              join_key_raw = raw;
              config_id = c;
              participant_data = (written raw c stream payload).participants;
              arrival_timestamps = (written raw c stream payload).arrivals;
              is_completed = false;
            })),
        after_upsert raw c stream payload,
      )
  unfolding upsert_participant get_state merge
  upsert_lem raw c stream payload = ground (
    arith,
    upsert_only_lem raw c stream payload,
    row-after_write raw c stream payload,
    sound.scan_row (after_write raw c stream payload).history (single hash),
  )

  pub remember_lem :
      (key : Text)
      → remember (some (bloom_filter key)) hash env w
        ≡ (ok tt, record w { history = commanded (bf_add key (encode hash)) none ∷ w.history })
  unfolding remember bloom_filter bloom_add
  remember_lem key = rw (sound.command_ok w.history (bf_add key (encode hash)))

  pub maybe_seen_lem :
      (key : Text) (b : Bool)
      → env.query w.history (bf_exists key (encode hash)) ≡ ok b
      → maybe_seen (some (bloom_filter key)) hash env w
        ≡ (ok b, record w { history = queried (bf_exists key (encode hash)) (ok b) ∷ w.history })
  unfolding maybe_seen bloom_filter bloom_exists
  maybe_seen_lem key b h = rw h

  abbrev pub deadline : Handler → ℕ
  deadline h = env.now w.history + to_nat h.join_cfg.ttl

  unfoldable pub after_timeout : Handler → Manager → World
  after_timeout h m =
      if is_pos h.join_cfg.ttl
      then record w {
        history =
            commanded (zadd m.set_key (unix (deadline h)) (encode hash)) none
            ∷ clock_read (env.now w.history)
            ∷ w.history;
      }
      else w

  pub start_timeout_lem :
      (h : Handler) (m : Manager)
      → start_timeout h (some (scheduler m)) hash env w ≡ (ok tt, after_timeout h m)
  unfolding start_timeout scheduler schedule_timeout after_timeout
  start_timeout_lem h m = ground (
    arith,
    sound.command_ok (clock_read (env.now w.history) ∷ w.history)
        (zadd m.set_key (unix (deadline h)) (encode hash)),
  )

-- Two worlds in which the database, the filter and the topics hold the same.
pub record IsSame (w w' : World) : Type 0 where
  pub rows : (k : RowKey) → row_after w'.history k ≡ row_after w.history k
  pub told : (key item : Text) → has_item key item w'.history ≡ has_item key item w.history
  pub messages : (topic : Text) → sent topic w'.history ≡ sent topic w.history

pub observe_join-ok :
    (env : Services) (w : World) (h : Handler) (s : Option JoinState) (start : ℕ)
    → (observe_join h s start env w).0 ≡ ok tt
unfolding observe_join
observe_join-ok env w h s start = ground arith

pub observe_join-IsSame :
    (env : Services) (w : World) (h : Handler) (s : Option JoinState) (start : ℕ)
    → IsSame w (observe_join h s start env w).1
unfolding observe_join row_after has_item sent
observe_join-IsSame env w h s start = record {
  rows = λ k. ground arith;
  told = λ key item. ground arith;
  messages = λ topic. ground arith;
}

-- The handler of a configuration with Redis, without corrections and without a delay.
abbrev pub plain_handler : ProcessorConfig → JoinConfig → Handler
plain_handler cfg jc = record {
  store = single_store;
  join_cfg = jc;
  producer = some kafka_producer;
  egress_topic = cfg.egress_topic;
  bloom = some (bloom_filter cfg.redis_bloom_key);
  timeout_sched = some (scheduler (single_manager cfg jc));
  delay_queue = none;
  late_tracker = none;
  corrections_topic = [];
}

module _ (env : Services) (sound : IsHealthy env) (w : World) (cfg : ProcessorConfig)
    (jc : JoinConfig) (hash : Text) where
  abbrev pub after_publish : Text → Text → Option JoinState → ℕ → World
  after_publish joined key state start =
      let w1 = record w { history = produced cfg.egress_topic key joined none ∷ w.history } in
      let w2 = (observe_join (plain_handler cfg jc) state start env w1).1 in
      record w2 { history = executed (delete (single hash)) none ∷ w2.history }

  pub publish_now_lem :
      (joined key : Text) (state : Option JoinState) (start : ℕ)
      → publish_now (plain_handler cfg jc) state hash joined key start env w
        ≡ (ok tt, after_publish joined key state start)
  unfolding publish_now publish_to kafka_producer single_store delete_state
  publish_now_lem joined key state start =
      let w1 = record w { history = produced cfg.egress_topic key joined none ∷ w.history } in
      let w2 = (observe_join (plain_handler cfg jc) state start env w1).1 in
      ground (
        arith,
        sound.produce_ok w.history cfg.egress_topic key joined,
        observe_join-ok env w1 (plain_handler cfg jc) state start,
        sound.exec_ok w2.history (delete (single hash)),
      )
