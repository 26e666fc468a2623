-- ===== src/Processor/Expiry.antt =====
-- What the timeout manager does with a key whose deadline has passed, in a healthy system.
mod Verdicts
mod After
unfoldable pub use Verdicts.*
pub use After.*
use confluo.Prelude.{
  true, ap, ◌∙◌, Text, Bool, false, ◌&&◌, ◌||◌, not, ◌≡◌, refl, arith, Option, none, some, List, [],
  ◌∷◌, length, leb, inl, inr, text_eq, text_eq_refl, if◌then◌else◌, is_empty,
}
use confluo.Fault.{Result, ok, err, Result-cases}
use confluo.Config.{ProcessorConfig, JoinConfig, EgressPolicy, inner, partial, other, width}
use confluo.Hex.{encode}
use confluo.Hex.RoundTrip.{IsBytes, decode-encode}
use confluo.Projection.{apply}
use confluo.Store.{single_store, get_state, read_reply, delete_state}
use confluo.Redis.{redis_partial_tracker, tracker_add}
use confluo.Consumer.{kafka_producer}
use confluo.Timeout.{
  Manager, new, process_member, publish_partial, examine, unschedule, discard, track_partial,
  send_partial, expire,
}
use confluo.World.{
  single, Codec, Services, World, History, Event, commanded, executed, produced, scanned, delete,
  sadd, zadd, zrem,
}
use confluo.World.Views.{is_member, has_item, Stored, row_after, sent, IsHealthy, select_reply}
use confluo.Processor.{has_redis, partial_key, single_tracker, single_manager, timeouts_key}

module _ (env : Services) (sound : IsHealthy env) (cfg : ProcessorConfig) (jc : JoinConfig) where
  abbrev pub with_history : World → History → World
  with_history w h = record w { history = h }

  abbrev pub manager : Manager
  manager = single_manager cfg jc

  unschedule_lem :
      (w : World) (hash : Text)
      → unschedule manager (encode hash) env w
        ≡ (ok tt, with_history w (commanded (zrem timeouts_key (encode hash)) none ∷ w.history))
  unfolding unschedule single_manager new
  unschedule_lem w hash = rw (sound.command_ok w.history (zrem timeouts_key (encode hash))) refl

  discard_lem :
      (w : World) (hash : Text)
      → discard manager (encode hash) hash env w
        ≡ (ok tt, with_history w (discarded hash w.history))
  unfolding discard single_manager new single_store delete_state
  discard_lem w hash =
      rw (sound.exec_ok w.history (delete (single hash)))
        (unschedule_lem (with_history w (executed (delete (single hash)) none ∷ w.history)) hash)

  track_lem :
      (w : World) (hash : Text)
      → track_partial manager.partial_tracker hash env w
        ≡ (ok tt, with_history w (tracked cfg hash w.history))
  unfolding track_partial single_manager new single_tracker redis_partial_tracker tracker_add
  track_lem w hash = ground (arith, sound.command_ok w.history (sadd partial_key (encode hash)))

  send_lem :
      (w : World) (bytes hash : Text)
      → send_partial manager.producer manager.egress_topic bytes hash env w
        ≡ (ok tt, with_history w (produced cfg.egress_topic hash bytes none ∷ w.history))
  unfolding send_partial single_manager new kafka_producer
  send_lem w bytes hash = rw (sound.produce_ok w.history cfg.egress_topic hash bytes) refl

  publish_lem :
      (w : World) (bytes hash : Text)
      → publish_partial manager (encode hash) hash (ok bytes) env w ≡ (
        ok tt,
        with_history w (
            discarded hash
              (tracked cfg hash (produced cfg.egress_topic hash bytes none ∷ w.history))),
      )
  publish_lem w bytes hash =
      let w1 : World = with_history w (produced cfg.egress_topic hash bytes none ∷ w.history) in
      ground (
        arith,
        send_lem w bytes hash,
        track_lem w1 hash,
        discard_lem (with_history w1 (tracked cfg hash w1.history)) hash,
      )

  get_lem :
      (w : World) (hash : Text)
      → manager.store.get hash env w ≡ (
        read_reply (select_reply (single hash) (row_after w.history (single hash))),
        with_history w (looked_up hash w.history),
      )
  unfolding single_manager new single_store get_state
  get_lem w hash = rw (sound.scan_row w.history (single hash)) refl

  examine_lem :
      (w : World) (hash : Text) (o : Option Stored)
      → examine manager
          (encode hash)
          hash
          (read_reply (select_reply (single hash) o))
          env
          (with_history w (looked_up hash w.history))
        ≡ (ok tt, with_history w (after cfg (judge env.codec jc o) hash w.history))
  unfolding judge expire width single_manager new
  examine_lem w hash none = unschedule_lem (with_history w (looked_up hash w.history)) hash
  examine_lem w hash (some s) =
      let w1 : World = with_history w (looked_up hash w.history) in
      elim (Result-cases (apply env.codec s.participants jc.projection)) [
        | inl (bytes, e) ↦
            ground
              (arith, e, unschedule_lem w1 hash, discard_lem w1 hash, publish_lem w1 bytes hash)
        | inr (x, e) ↦ ground (arith, e, unschedule_lem w1 hash, discard_lem w1 hash)
      ]

  pub process_member_lem :
      (w : World) (hash : Text)
      → IsBytes hash
      → process_member manager (encode hash) env w ≡ (
        ok tt,
        with_history w
            (after cfg (judge env.codec jc (row_after w.history (single hash))) hash w.history),
      )
  unfolding process_member single_manager new single_store
  process_member_lem w hash b =
      rw (decode-encode hash b, get_lem w hash)
        (examine_lem w hash (row_after w.history (single hash)))

  -- A member ends without an error, in a world where the row, the messages and the set are those of
  -- the verdict, and nothing else of them has changed.
  pub member_expires :
      (w : World) (hash : Text)
      → IsBytes hash
      → let v = judge env.codec jc (row_after w.history (single hash)) in
        (w' : World) × (process_member manager (encode hash) env w ≡ (ok tt, w'))
        × ((k : Text)
            → row_after w'.history (single k) ≡ (
                if text_eq hash k
                then row_by v (row_after w.history (single k))
                else row_after w.history (single k)))
        × (sent cfg.egress_topic w'.history ≡ sent_by v hash (sent cfg.egress_topic w.history))
        × ((member : Text)
            → scheduled member w'.history ≡ (
                if text_eq (encode hash) member
                then scheduled_by v (scheduled member w.history)
                else scheduled member w.history))
  member_expires w hash b =
      let v = judge env.codec jc (row_after w.history (single hash)) in
      (
        with_history w (after cfg v hash w.history),
        process_member_lem w hash b,
        (λ k. row-after cfg v hash k w.history),
        sent-after cfg v hash w.history,
        (λ member. scheduled-after cfg v hash member w.history),
      )

  -- A partial join is remembered where a tracker is kept, and the filter is not asked or told.
  pub member_published :
      (w : World) (hash bytes : Text)
      → IsBytes hash
      → judge env.codec jc (row_after w.history (single hash)) ≡ published bytes
      → has_redis cfg ≡ true
      → is_empty cfg.corrections_topic ≡ false
      → (w' : World) × (process_member manager (encode hash) env w ≡ (ok tt, w'))
        × ((k : Text)
            → row_after w'.history (single k)
              ≡ (if text_eq hash k then none else row_after w.history (single k)))
        × (sent cfg.egress_topic w'.history ≡ (hash, bytes) ∷ sent cfg.egress_topic w.history)
        × (is_member partial_key (encode hash) w'.history ≡ true)
        × ((key item : Text) → has_item key item w'.history ≡ has_item key item w.history)
  unfolding is_member has_item
  member_published w hash bytes b v redis corrected = (
    with_history w (after cfg (published bytes) hash w.history),
    process_member_lem w hash b ∙ ap (λ x. (ok tt, with_history w (after cfg x hash w.history))) v,
    (λ k. row-after cfg (published bytes) hash k w.history),
    sent-after cfg (published bytes) hash w.history,
    ground (arith, redis, corrected, text_eq_refl partial_key, text_eq_refl (encode hash)),
    (λ key item. ground arith),
  )
