-- ===== src/Processor/Corrections.antt =====
-- A late arrival in a healthy system: an event of a key whose partial join was published.
use confluo.Prelude.{
  ℕ, ◌∙◌, ◌<◌, length, is_empty, lt→ltb, Text, Bool, true, false, ◌≡◌, ◌≢◌, none, some, ◌∷◌, arith,
  text_eq, text_eq_iff, text_eq_refl, if◌then◌else◌,
}
use confluo.Prelude.Dict.{Dict, insert}
use confluo.Fault.{ok}
use confluo.Config.{ProcessorConfig, JoinConfig, width}
use confluo.Correction.{CorrectionEvent, late}
use confluo.Engine.{JoinState}
use confluo.Hex.{encode}
use confluo.Keys.{JoinKey}
use confluo.Projection.{apply}
use confluo.Projection.Total.{apply_ok, insert-AllDecode}
use confluo.Store.{single_store, delete_state}
use confluo.Redis.{redis_partial_tracker, tracker_contains, tracker_remove}
use confluo.Consumer.{
  Record, Handler, handle, get_stream_id, payload_of, kafka_producer, next_arrival, is_late,
  was_partial, correct_late, forget_partial, publish_to,
}
use confluo.Consumer.Key.{extract_key}
use confluo.World.{
  Services, World, single, executed, clock_read, commanded, produced, queried, delete, srem,
  sismember, bf_exists, events_processed_total,
}
use confluo.World.Views.{
  IsHealthy, IsJson, TellsMembers, row_after, has_item, is_member, sent, merge, participants_of,
}
use confluo.Processor.{has_redis, partial_key, single_handler, single_tracker}
use confluo.Processor.Healthy.{upsert_lem, written, after_upsert, maybe_seen_lem}
use confluo.Processor.Sound.{IsSound, payload-Decodes}

-- The codec prints every correction.
abbrev pub PrintsCorrections : Services → Type 0
PrintsCorrections env =
    (c : CorrectionEvent) → (body : Text) × (env.codec.marshal_correction c ≡ ok body)

module _ (env : Services) (sound : IsHealthy env) (members : TellsMembers env)
    (cfg : ProcessorConfig) (jc : JoinConfig) (redis : has_redis cfg ≡ true)
    (corrected : is_empty cfg.corrections_topic ≡ false) where
  abbrev h : Handler
  h = single_handler cfg jc

  abbrev correction : Text → World → Text → CorrectionEvent
  correction raw w partial = record {
    kind = late;
    join_key = raw;
    timestamp = env.now w.history;
    payload = partial;
  }

  abbrev after_correction : World → Text → Text → World
  after_correction w hash body = record w {
    history =
        executed (delete (single hash)) none
        ∷ commanded (srem partial_key (encode hash)) none
        ∷ produced cfg.corrections_topic hash body none
        ∷ clock_read (env.now w.history)
        ∷ w.history;
  }

  correct_late_lem :
      (w : World) (s : JoinState) (hash partial body : Text)
      → apply env.codec s.participant_data jc.projection ≡ ok partial
      → env.codec.marshal_correction (correction s.join_key_raw w partial) ≡ ok body
      → correct_late h s hash env w ≡ (ok tt, after_correction w hash body)
  unfolding correct_late publish_to forget_partial kafka_producer single_handler single_tracker
      redis_partial_tracker tracker_remove single_store delete_state
  correct_late_lem w s hash partial body a m =
      let h1 = clock_read (env.now w.history) ∷ w.history in
      let h2 = produced cfg.corrections_topic hash body none ∷ h1 in
      let h3 = commanded (srem partial_key (encode hash)) none ∷ h2 in
      ground (
        arith,
        redis,
        corrected,
        sound.produce_ok h1 cfg.corrections_topic hash body,
        sound.command_ok h2 (srem partial_key (encode hash)),
        sound.exec_ok h3 (delete (single hash)),
      )

  abbrev looked : World → Text → Bool → World
  looked w hash b = record w {
    history = queried (sismember partial_key (encode hash)) (ok b) ∷ w.history;
  }

  is_late_lem :
      (w : World) (s : JoinState) (hash : Text)
      → length s.participant_data < width jc
      → is_late h (some s) hash env w ≡ (
        ok (is_member partial_key (encode hash) w.history),
        looked w hash (is_member partial_key (encode hash) w.history),
      )
  unfolding is_late was_partial single_handler single_tracker redis_partial_tracker tracker_contains
  is_late_lem w s hash small = ground (
    arith,
    redis,
    corrected,
    members.member_ok w.history partial_key (encode hash),
    lt→ltb (length s.participant_data) (width jc) small,
  )

  module _ (w : World) (key : JoinKey) (stream payload : Text) where
    -- What is gathered with the event.
    abbrev pub parts : Dict Text
    parts = insert stream payload (participants_of (row_after w.history (single key.hash)))

    abbrev upserted : World
    upserted = after_upsert env sound w key.hash key.raw jc.config_id stream payload

    abbrev looked_up : World
    looked_up = looked upserted key.hash true

    next_arrival_late :
        (msg_key partial body : Text)
        → length parts < width jc
        → is_member partial_key (encode key.hash) w.history ≡ true
        → apply env.codec parts jc.projection ≡ ok partial
        → env.codec.marshal_correction (correction key.raw looked_up partial) ≡ ok body
        → next_arrival h key stream payload msg_key env w
          ≡ (ok tt, after_correction looked_up key.hash body)
    unfolding next_arrival single_handler single_store merge is_member
    next_arrival_late msg_key partial body small tracked a m =
        let s : JoinState = record {
          join_key_hash = key.hash;
          join_key_raw = key.raw;
          config_id = jc.config_id;
          participant_data = parts;
          arrival_timestamps =
              (written env sound w key.hash key.raw jc.config_id stream payload).arrivals;
          is_completed = false;
        } in
        ground (
          arith,
          upsert_lem env sound w key.hash key.raw jc.config_id stream payload,
          is_late_lem upserted s key.hash small,
          correct_late_lem looked_up s key.hash partial body a m,
        )

    -- What a correction leaves: one message on the corrections topic, none on another topic, no row,
    -- and no entry in the tracker's set; the other rows are as they were.
    pub record Corrected (partial : Text) (w' : World) : Type 0 where
      pub body : Text
      pub at : ℕ
      pub printed :
          env.codec.marshal_correction
            (record { kind = late; join_key = key.raw; timestamp = at; payload = partial })
          ≡ ok body
      pub message :
          sent cfg.corrections_topic w'.history
          ≡ (key.hash, body) ∷ sent cfg.corrections_topic w.history
      pub others :
          (topic : Text)
          → topic ≢ cfg.corrections_topic
          → sent topic w'.history ≡ sent topic w.history
      pub rows :
          (k : Text)
          → row_after w'.history (single k)
            ≡ (if text_eq key.hash k then none else row_after w.history (single k))
      pub forgotten : is_member partial_key (encode key.hash) w'.history ≡ false

    correction-Corrected :
        (partial body : Text)
        → env.codec.marshal_correction (correction key.raw looked_up partial) ≡ ok body
        → Corrected partial (after_correction looked_up key.hash body)
    unfolding sent row_after is_member
    correction-Corrected partial body m = record {
      body = body;
      at = env.now looked_up.history;
      printed = m;
      message = ground (arith, text_eq_refl cfg.corrections_topic);
      others = λ topic differs. ground (arith, text_eq_iff cfg.corrections_topic topic);
      rows = λ k. ground (arith, text_eq_iff key.hash k);
      forgotten = ground (arith, text_eq_refl partial_key, text_eq_refl (encode key.hash));
    }

  abbrev asked : World → Text → Text → World
  asked w hash stream = record w {
    history = queried (bf_exists cfg.redis_bloom_key (encode hash)) (ok true) ∷ w.history;
    metrics = events_processed_total jc.name stream ∷ w.metrics;
  }

  handle_seen :
      (w : World) (r : Record) (stream : Text) (key : JoinKey)
      → get_stream_id r ≡ ok stream
      → extract_key env.codec jc.key r.value ≡ ok key
      → has_item cfg.redis_bloom_key (encode key.hash) w.history ≡ true
      → handle h r env w
        ≡ next_arrival h key stream (payload_of r.value) r.key env (asked w key.hash stream)
  unfolding handle single_handler
  handle_seen w r stream key es ek told = ground (
    arith,
    redis,
    maybe_seen_lem env sound
        (record w { metrics = events_processed_total jc.name stream ∷ w.metrics }) key.hash
        cfg.redis_bloom_key true
        (sound.no_false_negative w.history cfg.redis_bloom_key (encode key.hash) told),
  )

  -- In a healthy system whose sets and codec answer as documented, with Redis and a corrections topic,
  -- from a sound world: an event of a key that the filter knows and whose partial join was published,
  -- which does not complete the join, is handled without an error. The projection of what is
  -- gathered with it is sent as a correction under the key, the row and the tracker's entry are
  -- gone, and other topics and rows are as they were.
  pub handle_corrects :
      (json : IsJson env.codec) (prints : PrintsCorrections env) (w : World) (v : IsSound env cfg w)
      (r : Record) (stream : Text) (key : JoinKey)
      → get_stream_id r ≡ ok stream
      → extract_key env.codec jc.key r.value ≡ ok key
      → has_item cfg.redis_bloom_key (encode key.hash) w.history ≡ true
      → is_member partial_key (encode key.hash) w.history ≡ true
      → length (parts w key stream (payload_of r.value)) < width jc
      → (partial : Text) × (w' : World) × (apply env.codec
            (parts w key stream (payload_of r.value))
            jc.projection
          ≡ ok partial)
        × (handle h r env w ≡ (ok tt, w'))
        × Corrected w key stream (payload_of r.value) partial w'
  unfolding row_after is_member sent
  handle_corrects json prints w v r stream key es ek told tracked small =
      let payload = payload_of r.value in
      let w1 = asked w key.hash stream in
      let d =
        insert-AllDecode env.codec stream payload _ (payload-Decodes env json jc.key r.value ek)
          (v.decodes key.hash) in
      let (partial, a, _) = apply_ok env.codec json (parts w key stream payload) jc.projection d in
      let (body, m) = prints (correction key.raw (looked_up w1 key stream payload) partial) in
      let c = correction-Corrected w1 key stream payload partial body m in
      (
        partial,
        after_correction (looked_up w1 key stream payload) key.hash body,
        a,
        handle_seen w r stream key es ek told
            ∙ next_arrival_late w1 key stream payload r.key partial body small tracked a m,
        record {
          body = c.body;
          at = c.at;
          printed = c.printed;
          message = c.message;
          others = c.others;
          rows = c.rows;
          forgotten = c.forgotten;
        },
      )
