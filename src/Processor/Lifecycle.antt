-- ===== src/Processor/Lifecycle.antt =====
-- A key whose deadline passes and that has an event afterwards: the timeout manager and then the
-- handler, in a healthy system.
use confluo.Prelude.{
  ◌<◌, ◌≡◌, refl, ap, ◌∙◌, Text, true, false, none, some, [], ◌∷◌, arith, length, is_empty, text_eq,
  text_eq_refl, if◌then◌else◌, Bool-cases, inl, inr,
}
use confluo.Prelude.Dict.{insert}
use confluo.Fault.{ok}
use confluo.Config.{ProcessorConfig, JoinConfig, partial, width}
use confluo.Hex.{encode}
use confluo.Hex.RoundTrip.{IsBytes}
use confluo.Keys.{JoinKey}
use confluo.Projection.{apply}
use confluo.Projection.Total.{apply_ok, AllDecode}
use confluo.Timeout.{process_member}
use confluo.Consumer.{Record, handle, get_stream_id, payload_of}
use confluo.Consumer.Key.{extract_key}
use confluo.World.{Services, World, single}
use confluo.World.Views.{
  IsHealthy, IsJson, TellsMembers, Stored, row_after, sent, participants_of, has_item,
}
use confluo.Processor.{has_redis, single_handler, single_manager}
use confluo.Processor.Sound.{IsSound}
use confluo.Processor.Expiry.{judge, published, member_published}
use confluo.Processor.Corrections.{PrintsCorrections, Corrected, parts, handle_corrects}

module _ (env : Services) (sound : IsHealthy env) (members : TellsMembers env)
    (json : IsJson env.codec) (prints : PrintsCorrections env) (cfg : ProcessorConfig)
    (jc : JoinConfig) (redis : has_redis cfg ≡ true)
    (corrected : is_empty cfg.corrections_topic ≡ false) (policy : jc.egress ≡ partial)
    (wide : 1 < width jc) (w : World) (v : IsSound env cfg w) (key : JoinKey)
    (bytes_only : IsBytes key.hash) (s : Stored)
    (row : row_after w.history (single key.hash) ≡ some s) (part : length s.participants < width jc)
    (r : Record) (stream : Text) (es : get_stream_id r ≡ ok stream)
    (ek : extract_key env.codec jc.key r.value ≡ ok key) where
  gathered-AllDecode : AllDecode env.codec s.participants
  gathered-AllDecode = rw row at (v.decodes key.hash)

  judged :
      (bytes : Text)
      → apply env.codec s.participants jc.projection ≡ ok bytes
      → judge env.codec jc (row_after w.history (single key.hash)) ≡ published bytes
  unfolding judge
  judged bytes e = rw (row, policy) (ground (arith, e))

  expired-IsSound :
      (w1 : World)
      → ((k : Text)
          → row_after w1.history (single k)
            ≡ (if text_eq key.hash k then none else row_after w.history (single k)))
      → ((name item : Text) → has_item name item w1.history ≡ has_item name item w.history)
      → IsSound env cfg w1
  expired-IsSound w1 rows told = record {
    told = λ k s' e. elim (Bool-cases (text_eq key.hash k)) [
      | inl same ↦ cc (rw (rows k, same) at e)
      | inr other ↦ told _ _ ∙ v.told k s' (rw (rows k, other) at e)
    ];
    decodes = λ k. elim (Bool-cases (text_eq key.hash k)) [
      | inl same ↦ rw (rows k, same) tt
      | inr other ↦ rw (rows k, other) (v.decodes k)
    ];
  }

  -- In a healthy system whose sets and codec answer as documented, with Redis, a corrections topic and
  -- the partial policy, from a sound world with an incomplete row of a key: the timeout manager sends
  -- the projection of what is gathered on the egress topic. An event of the key after that, if the
  -- join is of two streams or more, is answered by a correction that is the projection of this
  -- event alone: what the partial join had is not in it.
  pub expired_then_late :
      (bytes : Text) × (late : Text) × (w1 : World) × (w' : World) × (apply env.codec s.participants
          jc.projection
        ≡ ok bytes)
      × (process_member (single_manager cfg jc) (encode key.hash) env w ≡ (ok tt, w1))
      × (sent cfg.egress_topic w1.history ≡ (key.hash, bytes) ∷ sent cfg.egress_topic w.history)
      × (apply env.codec ((stream, payload_of r.value) ∷ []) jc.projection ≡ ok late)
      × (handle (single_handler cfg jc) r env w1 ≡ (ok tt, w'))
      × Corrected env sound members cfg jc redis corrected w1 key stream
          (payload_of r.value)
          late
          w'
  expired_then_late =
      let (bytes, e, _) = apply_ok env.codec json s.participants jc.projection gathered-AllDecode in
      let (w1, p, rows, message, tracked, told) =
        member_published env sound cfg jc w key.hash bytes bytes_only (judged bytes e) redis
          corrected in
      let gone : row_after w1.history (single key.hash) ≡ none =
        rows key.hash ∙ ground (arith, text_eq_refl key.hash) in
      let alone : parts env sound members cfg jc redis corrected w1 key stream (payload_of r.value)
          ≡ (stream, payload_of r.value) ∷ [] =
        ap (λ o. insert stream (payload_of r.value) (participants_of o)) gone
        ∙ (unfold insert in refl) in
      let (late, w', a, h, c) =
        handle_corrects env sound members cfg jc redis corrected json prints w1
          (expired-IsSound w1 rows told) r stream key es ek (told _ _ ∙ v.told key.hash s row)
          tracked (rw alone (omega arith)) in
      (bytes, late, w1, w', e, p, message, rw (← alone) a, h, c)
