-- ===== src/Processor/Join.antt =====
-- The processor with one inner join, Redis and no delay, in a healthy system: what it does to the
-- records of a partition, and that a key whose streams all arrive is joined once.
use mathlib.Core.Path.{subst}
use confluo.Prelude.{
  ◌∙◌, sym, Text, false, ◌≡◌, refl, none, List, [], ◌∷◌, ◌+◌, ◌≤◌, length, is_empty, arith,
}
use confluo.Prelude.Int.{is_pos}
use confluo.Config.{ProcessorConfig, JoinConfig, width}
use confluo.JoinSpec.{Arrival}
use confluo.JoinSpec.Rounds.{
  table_after, of_key, table_after-of_key, gather, AreFresh, last_key, fill-Completes,
}
use confluo.Consumer.Run.{process_records, resolver_from_single}
use confluo.World.{Services, World, KafkaRecord}
use confluo.World.Views.{IsHealthy, IsJson, sent}
use confluo.Processor.{single_handler}
use confluo.Processor.Healthy.{plain_handler}
use confluo.Processor.Steps.{joined_text}
use confluo.Processor.Sound.{IsSound, table_of}
use confluo.Processor.Serve.{Serves, arrivals_of, process_records-Serves}

-- A configuration with Redis, no corrections topic, no delay, and a join of two streams or more.
pub record IsInner (cfg : ProcessorConfig) (jc : JoinConfig) : Type 0 where
  pub with_redis : is_empty cfg.redis_addr ≡ false
  pub no_corrections : cfg.corrections_topic ≡ []
  pub no_delay : is_pos jc.post_join_delay ≡ false
  pub wide : 2 ≤ width jc

pub single_handler-eq-plain :
    (cfg : ProcessorConfig) (jc : JoinConfig)
    → IsInner cfg jc
    → single_handler cfg jc ≡ plain_handler cfg jc
unfolding single_handler
single_handler-eq-plain cfg jc h = ground arith

-- The processor's run over the records of one partition.
abbrev pub serve : Services → ProcessorConfig → JoinConfig → List KafkaRecord → World → World
serve env cfg jc recs w =
    (process_records (resolver_from_single (single_handler cfg jc)) recs none env w).1

module _ (env : Services) (sound : IsHealthy env) (json : IsJson env.codec) (cfg : ProcessorConfig)
    (jc : JoinConfig) (plain : IsInner cfg jc) (w : World) (valid : IsSound env cfg w) where
  -- From a sound world of a healthy system, and with any records: the rows of the keys, the messages
  -- on the egress topic and the invariant after the partition are those of the join, run over the
  -- events that the records carry (those with a stream header and a payload that decodes).
  pub serve-Serves :
      (recs : List KafkaRecord)
      → Serves env cfg jc (arrivals_of env.codec jc recs) w (serve env cfg jc recs w)
  serve-Serves recs =
      subst
        (λ h.
          Serves env cfg jc (arrivals_of env.codec jc recs) w
            (process_records (resolver_from_single h) recs none env w).1)
        (sym (single_handler-eq-plain cfg jc plain))
        (process_records-Serves env sound json cfg jc plain.wide w recs valid).1

  -- What a key has gathered after a partition is decided by the events of that key alone.
  pub serve_isolated :
      (recs : List KafkaRecord) (k : Text)
      → table_of (serve env cfg jc recs w) k
        ≡ table_after (width jc) (table_of w) (of_key k (arrivals_of env.codec jc recs)) k
  serve_isolated recs k =
      (serve-Serves recs).table k
      ∙ table_after-of_key (width jc) (table_of w) k (arrivals_of env.codec jc recs)

  -- If the events of a partition are of one key and of streams that have no payload yet, and with
  -- them the key has as many streams as the join, then exactly one message is sent: the projection
  -- of all payloads, under the message key of the last event. The key's row is gone.
  pub serve_joins :
      (recs : List KafkaRecord) (k : Text) (a : Arrival) (as' : List Arrival)
      → arrivals_of env.codec jc recs ≡ a ∷ as'
      → AreFresh k (table_of w k) (a ∷ as')
      → length (table_of w k) + length (a ∷ as') ≡ width jc
      → (sent cfg.egress_topic (serve env cfg jc recs w).history
          ≡ (last_key a as', joined_text env jc (gather (table_of w k) (a ∷ as')))
            ∷ sent cfg.egress_topic w.history)
        × (table_of (serve env cfg jc recs w) k ≡ [])
  serve_joins recs k a as' e fresh full =
      let s = serve-Serves recs in
      let c =
        fill-Completes (joined_text env jc) (width jc) k (table_of w) (table_of w k) a as'
          (sent cfg.egress_topic w.history) refl fresh full in
      (rw s.messages (rw e c.0), rw (s.table k) (rw e c.1))
