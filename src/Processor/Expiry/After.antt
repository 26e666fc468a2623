-- ===== src/Processor/Expiry/After.antt =====
-- The history behind a key whose deadline has passed, and what can be read off it.
use confluo.Prelude.{
  Text, ◌&&◌, not, ◌≡◌, refl, arith, none, ◌∷◌, text_eq, text_eq_refl, if◌then◌else◌, is_empty,
}
use confluo.Config.{ProcessorConfig}
use confluo.Hex.{encode}
use confluo.World.{single, History, commanded, executed, produced, scanned, delete, sadd, zrem}
use confluo.World.Views.{has_item, row_after, sent, select_reply}
use confluo.Processor.{has_redis, partial_key, timeouts_key}
use confluo.Processor.Expiry.Verdicts.{
  Verdict, missing, completed, dropped, unprojectable, published, row_by, sent_by, scheduled,
  scheduled_by,
}

abbrev pub discarded : Text → History → History
discarded hash h =
    commanded (zrem timeouts_key (encode hash)) none ∷ executed (delete (single hash)) none ∷ h

abbrev pub looked_up : Text → History → History
looked_up hash h =
    scanned (single hash) (select_reply (single hash) (row_after h (single hash))) ∷ h

module _ (cfg : ProcessorConfig) where
  -- The history after the tracker is told of a key, if there is a tracker.
  abbrev pub tracked : Text → History → History
  tracked hash h =
      if has_redis cfg && not (is_empty cfg.corrections_topic)
      then commanded (sadd partial_key (encode hash)) none ∷ h
      else h

  abbrev pub after : Verdict → Text → History → History
  after unprojectable hash h = looked_up hash h
  after dropped hash h = discarded hash (looked_up hash h)
  after (published bytes) hash h =
      discarded hash (tracked hash (produced cfg.egress_topic hash bytes none ∷ looked_up hash h))
  after _ hash h = commanded (zrem timeouts_key (encode hash)) none ∷ looked_up hash h

  pub row-after :
      (v : Verdict) (hash k : Text) (h : History)
      → row_after (after v hash h) (single k)
        ≡ (if text_eq hash k then row_by v (row_after h (single k)) else row_after h (single k))
  unfolding row_after
  row-after missing hash k h = ground arith
  row-after completed hash k h = ground arith
  row-after dropped hash k h = ground arith
  row-after unprojectable hash k h = ground arith
  row-after (published b) hash k h = ground arith

  pub sent-after :
      (v : Verdict) (hash : Text) (h : History)
      → sent cfg.egress_topic (after v hash h) ≡ sent_by v hash (sent cfg.egress_topic h)
  unfolding sent
  sent-after missing hash h = refl
  sent-after completed hash h = refl
  sent-after dropped hash h = refl
  sent-after unprojectable hash h = refl
  sent-after (published b) hash h = ground (arith, text_eq_refl cfg.egress_topic)

  pub scheduled-after :
      (v : Verdict) (hash member : Text) (h : History)
      → scheduled member (after v hash h) ≡ (
          if text_eq (encode hash) member
          then scheduled_by v (scheduled member h)
          else scheduled member h)
  unfolding scheduled
  scheduled-after missing hash member h = ground (arith, text_eq_refl timeouts_key)
  scheduled-after completed hash member h = ground (arith, text_eq_refl timeouts_key)
  scheduled-after dropped hash member h = ground (arith, text_eq_refl timeouts_key)
  scheduled-after unprojectable hash member h = ground arith
  scheduled-after (published b) hash member h = ground (arith, text_eq_refl timeouts_key)

  pub has_item-after :
      (v : Verdict) (hash name item : Text) (h : History)
      → has_item name item (after v hash h) ≡ has_item name item h
  unfolding has_item
  has_item-after missing hash name item h = refl
  has_item-after completed hash name item h = refl
  has_item-after dropped hash name item h = refl
  has_item-after unprojectable hash name item h = refl
  has_item-after (published b) hash name item h = ground arith
