-- ===== src/Delay/Durable.antt =====
-- The queue in a Redis sorted set.
use confluo.Prelude.{
  Bool, false, ◌&&◌, ◌||◌, [], is_some, text_eq, if◌then◌else◌, ℕ, Text, true, ◌≡◌, none, some, ◌∷◌,
  arith, text_eq_refl,
}
use confluo.Fault.{Error, ok}
use confluo.Base64
use confluo.Base64.RoundTrip.{IsBytes, decode-encode}
use confluo.Store.{single_store, delete_state}
use confluo.Consumer.{kafka_producer}
use confluo.World.{
  Event, History, Services, World, Codec, DelayedItem, commanded, produced, zadd, zrem,
}
use confluo.World.Views.{IsHealthy, sent}
use confluo.Delay.{
  Queue, uses_redis, schedule, schedule_redis, count_failure, float64, flush_member,
  publish_and_cleanup,
}

-- `json.Unmarshal` reads back what `json.Marshal` made of an item.
abbrev pub ReadsBack : Codec → Type 0
ReadsBack c = (i : DelayedItem) (s : Text) → c.marshal_item i ≡ ok s → c.unmarshal_item s ≡ ok i

abbrev pub packed : Text → Text → Text → DelayedItem
packed hash joined key = record {
  h = Base64.encode hash;
  j = Base64.encode joined;
  k = Base64.encode key;
}

-- Whether a member stands in a sorted set, after the commands that were acknowledged.
abbrev pub queued_step : Text → Text → Event → Bool → Bool
queued_step key member (commanded (zadd k s i) none) before =
    (text_eq k key && text_eq i member) || before
queued_step key member (commanded (zrem k i) none) before =
    if text_eq k key && text_eq i member then false else before
queued_step key member _ before = before

unfoldable pub queued : Text → Text → History → Bool
queued key member [] = false
queued key member (e ∷ h) = queued_step key member e (queued key member h)

-- When Kafka refuses the message of a decoded member, whatever the other replies are: the turn has
-- the produce call and a ZREM of the member as its only calls, nothing was sent, and the member
-- stands in the set afterwards only if it did before and Redis refuses the ZREM.
pub flush_member_loses :
    (env : Services) (q : Queue) (w : World) (member : Text) (item : DelayedItem) (e : Error)
    → q.producer ≡ some kafka_producer
    → env.codec.unmarshal_item member ≡ ok item
    → env.produce w.history q.topic (Base64.decode item.k) (Base64.decode item.j) ≡ some e
    → let w' = (flush_member q member env w).1 in
      (w'.history
        ≡ commanded (zrem q.redis_key member) (
            env.command
              (produced q.topic (Base64.decode item.k) (Base64.decode item.j) (some e) ∷ w.history)
              (zrem q.redis_key member))
          ∷ produced q.topic (Base64.decode item.k) (Base64.decode item.j) (some e)
          ∷ w.history)
      × (sent q.topic w'.history ≡ sent q.topic w.history)
      × (queued q.redis_key member w'.history ≡ (
          is_some (
            env.command
              (produced q.topic (Base64.decode item.k) (Base64.decode item.j) (some e) ∷ w.history)
              (zrem q.redis_key member))
          && queued q.redis_key member w.history))
unfolding flush_member publish_and_cleanup kafka_producer count_failure sent queued
flush_member_loses env q w member item e p u f =
    (ground arith, ground arith, ground (arith, text_eq_refl q.redis_key, text_eq_refl member))

module _ (env : Services) (sound : IsHealthy env) (reads : ReadsBack env.codec) (q : Queue)
    (p : q.producer ≡ some kafka_producer) (s : q.store ≡ some single_store) where
  -- In a healthy system, with a codec that reads back the items it prints and a Redis queue that has
  -- the Kafka producer and the store: scheduling bytes adds one member to the set, and a flush of this
  -- member, from any world, sends the same bytes under the same message key.
  pub schedule_flush :
      (w w1 : World) (hash joined key : Text) (at : ℕ) (member : Text)
      → uses_redis q ≡ true
      → IsBytes joined
      → IsBytes key
      → env.codec.marshal_item (packed hash joined key) ≡ ok member
      → ((schedule q hash joined key at env w).1.history
          ≡ commanded (zadd q.redis_key (float64 at) member) none ∷ w.history)
        × (sent q.topic (flush_member q member env w1).1.history
            ≡ (key, joined) ∷ sent q.topic w1.history)
  unfolding schedule schedule_redis flush_member publish_and_cleanup kafka_producer single_store
      delete_state sent
  schedule_flush w w1 hash joined key at member redis bj bk m = (
    rw (redis, m, sound.command_ok w.history (zadd q.redis_key (float64 at) member)),
    ground (
      arith,
      reads (packed hash joined key) member m,
      decode-encode joined bj,
      decode-encode key bk,
      sound.produce_ok w1.history q.topic key joined,
      text_eq_refl q.topic,
    ),
  )
