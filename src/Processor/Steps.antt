-- ===== src/Processor/Steps.antt =====
-- In a healthy system, the worlds after the two branches of the handler are steps of the join.
use confluo.Prelude.{Text, true, false, ◌≡◌, none, ◌++◌, arith, text_eq, text_eq_iff, text_eq_refl}
use confluo.Prelude.Dict.{Dict}
use confluo.Fault.{ok}
use confluo.Config.{ProcessorConfig, JoinConfig, width}
use confluo.Hex.{encode}
use confluo.Keys.{JoinKey}
use confluo.Projection.{apply}
use confluo.Projection.Total.{Decodes, AllDecode, insert-AllDecode}
use confluo.JoinSpec.{Arrival, next, emission, is_full, gathered}
use confluo.Keys.{or_blank}
use confluo.World.{Services, World}
use confluo.World.Views.{IsHealthy, has_item, sent, merge}
use confluo.Processor.Healthy.{written}
use confluo.Processor.Arrivals.{after_first, tick}
use confluo.Processor.Sound.{
  row-publish, told-publish, sent-publish, w_publish, row-after_first, told-after_first,
  sent-after_first, w_upsert, row-tick, told-tick, sent-tick, pick-AllDecode, IsSound, table_of,
}

-- The text that a full key is put together to.
abbrev pub joined_text : Services → JoinConfig → Dict Text → Text
joined_text env jc parts = or_blank (apply env.codec parts jc.projection)

-- What one event has done: the step of the table, the messages of that step, and the invariant.
pub record Joins (env : Services) (cfg : ProcessorConfig) (jc : JoinConfig) (a : Arrival)
    (w w' : World) : Type 0 where
  pub table : (k : Text) → table_of w' k ≡ next (width jc) (table_of w) a k
  pub messages :
      sent cfg.egress_topic w'.history
      ≡ emission (joined_text env jc) (width jc) (table_of w) a ++ sent cfg.egress_topic w.history
  pub kept : IsSound env cfg w'

abbrev pub arrival_of : JoinKey → Text → Text → Text → Arrival
arrival_of key stream payload msg_key = record {
  hash = key.hash;
  stream = stream;
  payload = payload;
  msg_key = msg_key;
}

module _ (env : Services) (sound : IsHealthy env) (w : World) (cfg : ProcessorConfig)
    (jc : JoinConfig) (key : JoinKey) (stream payload msg_key : Text) (valid : IsSound env cfg w)
    (decoded : Decodes env.codec payload) where
  abbrev pub arrival : Arrival
  arrival = arrival_of key stream payload msg_key

  pub gathered-AllDecode :
      AllDecode env.codec
        (written env sound w key.hash key.raw jc.config_id stream payload).participants
  unfolding merge
  gathered-AllDecode =
      insert-AllDecode env.codec stream payload (table_of w key.hash) decoded
        (valid.decodes key.hash)

  pub first-Joins :
      is_full (width jc) (table_of w) arrival ≡ false
      → Joins env cfg jc arrival w (after_first env sound w cfg jc key stream payload)
  unfolding merge next emission
  first-Joins part = record {
    table = λ k. ground (arith, row-after_first env sound w cfg jc key stream payload k);
    messages =
        ground (arith, sent-after_first env sound w cfg jc key stream payload cfg.egress_topic);
    kept = record {
      told = λ k s e. ground (
        arith,
        row-after_first env sound w cfg jc key stream payload k,
        valid.told k s,
        told-after_first env sound w cfg jc key stream payload cfg.redis_bloom_key (encode k),
        text_eq_iff key.hash k,
        text_eq_refl cfg.redis_bloom_key,
        text_eq_refl (encode k),
      );
      decodes = λ k.
          rw (row-after_first env sound w cfg jc key stream payload k) (
            pick-AllDecode env.codec (text_eq key.hash k) _ _ gathered-AllDecode (valid.decodes k));
    };
  }

  pub part-Joins :
      is_full (width jc) (table_of w) arrival ≡ false
      → has_item cfg.redis_bloom_key (encode key.hash) w.history ≡ true
      → Joins env cfg jc arrival w
          (tick env sound w cfg jc (w_upsert env sound w cfg jc key stream payload))
  unfolding merge next emission
  part-Joins part known = record {
    table = λ k. ground (arith, row-tick env sound w cfg jc key stream payload k);
    messages = ground (arith, sent-tick env sound w cfg jc key stream payload cfg.egress_topic);
    kept = record {
      told = λ k s e. ground (
        arith,
        row-tick env sound w cfg jc key stream payload k,
        valid.told k s,
        told-tick env sound w cfg jc key stream payload cfg.redis_bloom_key (encode k),
        text_eq_iff key.hash k,
      );
      decodes = λ k.
          rw (row-tick env sound w cfg jc key stream payload k) (
            pick-AllDecode env.codec (text_eq key.hash k) _ _ gathered-AllDecode (valid.decodes k));
    };
  }

  pub full-Joins :
      (out : Text)
      → is_full (width jc) (table_of w) arrival ≡ true
      → apply env.codec (gathered (table_of w) arrival) jc.projection ≡ ok out
      → Joins env cfg jc arrival w (w_publish env sound w cfg jc key stream payload out msg_key)
  unfolding merge next emission
  full-Joins out full made = record {
    table = λ k. ground (arith, row-publish env sound w cfg jc key stream payload out msg_key k);
    messages = ground (arith, sent-publish env sound w cfg jc key stream payload out msg_key);
    kept = record {
      told = λ k s e. ground (
        arith,
        row-publish env sound w cfg jc key stream payload out msg_key k,
        valid.told k s,
        told-publish env sound w cfg jc key stream payload out msg_key cfg.redis_bloom_key
            (encode k),
        text_eq_iff key.hash k,
      );
      decodes = λ k.
          rw (row-publish env sound w cfg jc key stream payload out msg_key k)
            (pick-AllDecode env.codec (text_eq key.hash k) none _ tt (valid.decodes k));
    };
  }
