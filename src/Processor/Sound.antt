-- ===== src/Processor/Sound.antt =====
-- The worlds that the handler leaves behind: their rows, and what the filter was told.
use confluo.Prelude.{
  inl, inr, [], Text, Bool, true, false, ◌≡◌, refl, Option, none, some, ◌∷◌, ◌&&◌, ◌||◌, arith,
  text_eq, text_eq_iff, text_eq_refl, if◌then◌else◌,
}
use confluo.Config.{ProcessorConfig, JoinConfig}
use confluo.Hex.{encode}
use confluo.Keys.{JoinKey}
use confluo.Projection.Total.{AllDecode}
use confluo.JoinSpec.{Table}
use confluo.Consumer.{observe_join}
use confluo.World.{Codec, Services, World, clock_read, single, produced}
use confluo.World.Views.{IsHealthy, row_after, has_item, sent, Stored, participants_of}
use confluo.Processor.Healthy.{
  plain_handler, after_upsert, after_timeout, after_publish, written, IsSame, observe_join-IsSame,
}
use confluo.Processor.Arrivals.{after_first, state_written, tick}
use confluo.Fault.{ok, Result-cases}
use confluo.Config.{KeyDef}
use confluo.Consumer.{payload_of}
use confluo.Consumer.Key.{extract_key}
use confluo.World.Views.{IsJson}
use confluo.Projection.Total.{Decodes}

-- What every reachable world has: a key with a row is known to the filter, and every stored payload
-- decodes.
pub record IsSound (env : Services) (cfg : ProcessorConfig) (w : World) : Type 0 where
  pub told :
      (k : Text) (s : Stored)
      → row_after w.history (single k) ≡ some s
      → has_item cfg.redis_bloom_key (encode k) w.history ≡ true
  pub decodes : (k : Text) → AllDecode env.codec (participants_of (row_after w.history (single k)))

abbrev pub table_of : World → Table
table_of w k = participants_of (row_after w.history (single k))

module _ (env : Services) (sound : IsHealthy env) (w : World) (cfg : ProcessorConfig)
    (jc : JoinConfig) (key : JoinKey) (stream payload : Text) where
  pub row-after_first :
      (k : Text)
      → row_after (after_first env sound w cfg jc key stream payload).history (single k) ≡ (
          if text_eq key.hash k
          then some (written env sound w key.hash key.raw jc.config_id stream payload)
          else row_after w.history (single k))
  unfolding row_after after_timeout
  row-after_first k = ground (arith, text_eq_iff key.hash k)

  pub told-after_first :
      (name item : Text)
      → has_item name item (after_first env sound w cfg jc key stream payload).history ≡ (
          (text_eq cfg.redis_bloom_key name && text_eq (encode key.hash) item)
          || has_item name item w.history)
  unfolding has_item after_timeout
  told-after_first name item = ground arith

  pub sent-after_first :
      (topic : Text)
      → sent topic (after_first env sound w cfg jc key stream payload).history
        ≡ sent topic w.history
  unfolding sent after_timeout
  sent-after_first topic = ground arith

  abbrev pub w_upsert : World
  w_upsert = after_upsert env sound w key.hash key.raw jc.config_id stream payload

  pub row-tick :
      (k : Text)
      → row_after (tick env sound w cfg jc w_upsert).history (single k) ≡ (
          if text_eq key.hash k
          then some (written env sound w key.hash key.raw jc.config_id stream payload)
          else row_after w.history (single k))
  unfolding row_after
  row-tick k = ground (arith, text_eq_iff key.hash k)

  pub told-tick :
      (name item : Text)
      → has_item name item (tick env sound w cfg jc w_upsert).history ≡ has_item name item w.history
  unfolding has_item
  told-tick name item = refl

  pub sent-tick :
      (topic : Text) → sent topic (tick env sound w cfg jc w_upsert).history ≡ sent topic w.history
  unfolding sent
  sent-tick topic = refl

  module _ (out msg_key : Text) where
    abbrev pub w_publish : World
    w_publish =
        after_publish env sound (tick env sound w cfg jc w_upsert) cfg jc key.hash out msg_key
          (some (state_written env sound w cfg jc key stream payload)) (env.now w_upsert.history)

    abbrev w_send : World
    w_send = record w_upsert {
      history =
          produced cfg.egress_topic msg_key out none
          ∷ clock_read (env.now w_upsert.history)
          ∷ w_upsert.history;
    }

    observed :
        IsSame w_send
          (observe_join
            (plain_handler cfg jc)
            (some (state_written env sound w cfg jc key stream payload))
            (env.now w_upsert.history)
            env
            w_send).1
    observed =
        observe_join-IsSame env w_send (plain_handler cfg jc)
          (some (state_written env sound w cfg jc key stream payload)) (env.now w_upsert.history)

    pub row-publish :
        (k : Text)
        → row_after w_publish.history (single k)
          ≡ (if text_eq key.hash k then none else row_after w.history (single k))
    unfolding row_after
    row-publish k = ground (arith, observed.rows (single k))

    pub told-publish :
        (name item : Text) → has_item name item w_publish.history ≡ has_item name item w.history
    unfolding has_item
    told-publish name item = observed.told name item

    pub sent-publish :
        sent cfg.egress_topic w_publish.history ≡ (msg_key, out) ∷ sent cfg.egress_topic w.history
    unfolding sent
    sent-publish = ground (arith, observed.messages cfg.egress_topic, text_eq_refl cfg.egress_topic)

pub pick-AllDecode :
    (c : Codec) (b : Bool) (s r : Option Stored)
    → AllDecode c (participants_of s)
    → AllDecode c (participants_of r)
    → AllDecode c (participants_of (if b then s else r))
pick-AllDecode c true s r hs hr = hs
pick-AllDecode c false s r hs hr = hr

module _ (env : Services) (json : IsJson env.codec) where
  -- A payload that has a key decodes.
  pub payload-Decodes :
      (k : KeyDef) (v : Option Text) {key : JoinKey}
      → extract_key env.codec k v ≡ ok key
      → Decodes env.codec (payload_of v)
  unfolding extract_key
  payload-Decodes k none h = elim (Result-cases (env.codec.unmarshal [])) [
    | inl (m, e) ↦ absurd (json.empty_fails m e)
    | inr (x, e) ↦ cc (rw e at h)
  ]
  payload-Decodes k (some v) h = elim (Result-cases (env.codec.unmarshal v)) [
    | inl d ↦ d
    | inr (x, e) ↦ cc (rw e at h)
  ]
