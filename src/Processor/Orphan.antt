-- ===== src/Processor/Orphan.antt =====
-- A key with one event: the handler and then the timeout manager, in a healthy system.
use confluo.Prelude.{
  ◌≡◌, refl, sym, ap, ◌∙◌, Text, true, false, none, some, [], ◌∷◌, arith, text_eq_refl,
}
use mathlib.Core.Path.{subst}
use confluo.Prelude.Dict.{insert}
use confluo.Prelude.Int.{is_pos}
use confluo.Fault.{ok}
use confluo.Config.{ProcessorConfig, JoinConfig, partial}
use confluo.Hex.{encode}
use confluo.Hex.RoundTrip.{IsBytes}
use confluo.Keys.{JoinKey}
use confluo.Projection.{apply}
use confluo.Projection.Total.{apply_ok}
use confluo.Timeout.{new, process_member}
use confluo.Consumer.{Record, handle, get_stream_id, payload_of}
use confluo.Consumer.Key.{extract_key}
use confluo.World.{Services, World, single, bf_exists}
use confluo.World.Views.{IsHealthy, IsJson, row_after, sent, merge}
use confluo.Processor.{single_handler, single_manager, timeouts_key}
use confluo.Processor.Healthy.{plain_handler, after_timeout, written}
use confluo.Processor.Arrivals.{after_first, first_arrival_lem}
use confluo.Processor.Sound.{IsSound, payload-Decodes, row-after_first, sent-after_first}
use confluo.Processor.Refinement.{unseen-row, handle_seen, asked, counted, asked-row}
use confluo.Processor.Join.{IsInner, single_handler-eq-plain}
use confluo.Processor.Expiry.{judge, published, sent_by, scheduled, member_expires}

module _ (env : Services) (sound : IsHealthy env) (json : IsJson env.codec) (cfg : ProcessorConfig)
    (jc : JoinConfig) (inner : IsInner cfg jc) (w : World) (v : IsSound env cfg w) (r : Record)
    (stream : Text) (key : JoinKey) (es : get_stream_id r ≡ ok stream)
    (ek : extract_key env.codec jc.key r.value ≡ ok key)
    (unseen : env.query w.history (bf_exists cfg.redis_bloom_key (encode key.hash))
      ≡ ok false) where
  abbrev payload : Text
  payload = payload_of r.value

  abbrev w0 : World
  w0 =
      asked env sound json cfg jc inner.wide (counted env sound json cfg jc inner.wide w stream)
        key.hash false

  abbrev w1 : World
  w1 = after_first env sound w0 cfg jc key stream payload

  plain_first : handle (plain_handler cfg jc) r env w ≡ (ok tt, w1)
  plain_first =
      handle_seen env sound json cfg jc inner.wide w r stream key false es ek unseen
      ∙ first_arrival_lem env sound w0 cfg jc key stream payload

  row_first :
      row_after w1.history (single key.hash)
      ≡ some (written env sound w0 key.hash key.raw jc.config_id stream payload)
  row_first =
      row-after_first env sound w0 cfg jc key stream payload key.hash
      ∙ ground (arith, text_eq_refl key.hash)

  parts_first :
      (written env sound w0 key.hash key.raw jc.config_id stream payload).participants
      ≡ (stream, payload) ∷ []
  unfolding merge insert
  parts_first =
      let new =
        asked-row env sound json cfg jc inner.wide w key.hash stream
          (unseen-row env sound json cfg jc inner.wide w v key.hash unseen) in
      rw new refl

  scheduled_first : is_pos jc.ttl ≡ true → scheduled (encode key.hash) w1.history ≡ true
  unfolding scheduled after_timeout single_manager new
  scheduled_first long =
      ground (arith, long, text_eq_refl timeouts_key, text_eq_refl (encode key.hash))

  sent_first : sent cfg.egress_topic w1.history ≡ sent cfg.egress_topic w.history
  unfolding asked sent
  sent_first = sent-after_first env sound w0 cfg jc key stream payload cfg.egress_topic

  judged :
      (bytes : Text)
      → jc.egress ≡ partial
      → apply env.codec ((stream, payload) ∷ []) jc.projection ≡ ok bytes
      → judge env.codec jc (row_after w1.history (single key.hash)) ≡ published bytes
  unfolding judge
  judged bytes policy e =
      let big = inner.wide in rw (row_first, parts_first, policy) (ground (arith, e, big))

  -- In a healthy system, with Redis, no corrections topic, no delay, two streams or more, the partial
  -- policy and a positive time to live: the first event of a key that the filter has not seen is
  -- handled without an error and leaves a deadline of the key in the set. When the timeout manager
  -- then comes to the key, with no other event between, it sends the projection of this event alone,
  -- and the row and the deadline are gone.
  pub orphan_published :
      jc.egress ≡ partial
      → is_pos jc.ttl ≡ true
      → IsBytes key.hash
      → (bytes : Text) × (t : World) × (u : World) × (apply env.codec
            ((stream, payload) ∷ [])
            jc.projection
          ≡ ok bytes)
        × (handle (single_handler cfg jc) r env w ≡ (ok tt, t))
        × (scheduled (encode key.hash) t.history ≡ true)
        × (process_member (single_manager cfg jc) (encode key.hash) env t ≡ (ok tt, u))
        × (sent cfg.egress_topic u.history ≡ (key.hash, bytes) ∷ sent cfg.egress_topic w.history)
        × (row_after u.history (single key.hash) ≡ none)
        × (scheduled (encode key.hash) u.history ≡ false)
  orphan_published policy long b =
      let (bytes, e, _) =
        apply_ok env.codec json ((stream, payload) ∷ []) jc.projection
          (payload-Decodes env json jc.key r.value ek, tt) in
      let h = judged bytes policy e in
      let (u, p, rows, messages, deadlines) = member_expires env sound cfg jc w1 key.hash b in
      (
        bytes,
        w1,
        u,
        e,
        subst (λ x. handle x r env w ≡ (ok tt, w1)) (sym (single_handler-eq-plain cfg jc inner))
            plain_first,
        scheduled_first long,
        p,
        messages
            ∙ ap (λ x. sent_by x key.hash (sent cfg.egress_topic w1.history)) h
            ∙ ap (λ l. (key.hash, bytes) ∷ l) sent_first,
        rows key.hash ∙ rw (h, text_eq_refl key.hash) refl,
        deadlines (encode key.hash) ∙ rw (h, text_eq_refl (encode key.hash)) refl,
      )
