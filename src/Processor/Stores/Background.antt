-- ===== src/Processor/Stores/Background.antt =====
-- What the tracker, the delay queue and the timeout manager keep, if their store does.
use confluo.Prelude.{Text, ◌≡◌, refl, sym, Option, none, some}
use confluo.Fault.{Result, ok, err}
use confluo.Config.{EgressPolicy, inner, partial, other}
use confluo.Engine.{JoinState}
use confluo.Store.{StateStore}
use confluo.Redis.{
  PartialTracker, redis_partial_tracker, tracker_add, tracker_contains, tracker_remove,
}
use confluo.Consumer.{Producer, kafka_producer}
use confluo.Timeout.{
  Manager, process_due, expire, publish_partial, after_publish, send_partial, track_partial,
  discard, unschedule,
}
use confluo.Timeout.Keeps.{process_due-Keeps}
use confluo.Delay.{Queue, flush_due, publish_and_cleanup, send, clean_up, count_failure, after_send}
use confluo.Delay.Keeps.{flush_due-Keeps}
use confluo.World.{History}
use confluo.World.Keeps.{Keeps, IsCalm, keeps_rules}
use confluo.Store.Keeps.{StoreKeeps}
use confluo.Processor.Keeps.{send-Keeps}

module _ {P : History → Type 0} (calm : IsCalm P) (st : StateStore) (keeps : StoreKeeps P st) where
  pub tracker-Keeps :
      (key hash : Text)
      → Keeps P ((redis_partial_tracker key).add hash)
        × Keeps P ((redis_partial_tracker key).contains hash)
        × Keeps P ((redis_partial_tracker key).remove hash)
  unfolding redis_partial_tracker tracker_add tracker_contains tracker_remove
  tracker-Keeps key hash =
      (search (keeps_rules, calm), search (keeps_rules, calm), search (keeps_rules, calm))

  module _ (q : Queue) (p : q.producer ≡ some kafka_producer) (s : q.store ≡ some st) where
    sent-Keeps :
        (r : Option Producer)
        → r ≡ some kafka_producer
        → (topic key value : Text) → Keeps P (send r topic key value)
    unfolding send
    sent-Keeps r e topic key value = rw e (send-Keeps calm topic key value)

    cleaned-Keeps :
        (r : Option StateStore) → r ≡ some st → (hash : Text) → Keeps P (clean_up r hash)
    unfolding clean_up
    cleaned-Keeps r e hash = rw e (search (keeps_rules, keeps.remove))

    after-Keeps : (hash : Text) (r : Result (Unit {0})) → Keeps P (after_send q hash r)
    unfolding count_failure
    after-Keeps hash (ok u) = cleaned-Keeps q.store s hash
    after-Keeps hash (err e) = search keeps_rules

    cleans-Keeps : (hash joined key : Text) → Keeps P (publish_and_cleanup q hash joined key)
    unfolding publish_and_cleanup
    cleans-Keeps hash joined key = search (keeps_rules, sent-Keeps q.producer p, after-Keeps)

    pub store-flush_due-Keeps : Keeps P (flush_due q)
    store-flush_due-Keeps = flush_due-Keeps (calm) q cleans-Keeps

  module _ (m : Manager) (p : m.producer ≡ some kafka_producer) (s : m.store ≡ st)
      (tracker : (t : PartialTracker)
        → m.partial_tracker ≡ some t
        → (hash : Text) → Keeps P (t.add hash)) where
    drops-Keeps : (hash : Text) → Keeps P (m.store.remove hash)
    drops-Keeps hash = rw s (keeps.remove hash)

    unscheduled-Keeps : (member : Text) → Keeps P (unschedule m member)
    unfolding unschedule
    unscheduled-Keeps member = search (keeps_rules, calm)

    discards-Keeps : (member hash : Text) → Keeps P (discard m member hash)
    unfolding discard
    discards-Keeps member hash = search (keeps_rules, drops-Keeps, unscheduled-Keeps)

    tracks-Keeps :
        (t : Option PartialTracker)
        → t ≡ m.partial_tracker
        → (hash : Text) → Keeps P (track_partial t hash)
    unfolding track_partial
    tracks-Keeps none e hash = search keeps_rules
    tracks-Keeps (some t) e hash = search (keeps_rules, tracker t (sym e))

    published-Keeps :
        (member hash : Text) (r : Result (Unit {0})) → Keeps P (after_publish m member hash r)
    published-Keeps member hash (ok u) =
        search (keeps_rules, tracks-Keeps m.partial_tracker refl, discards-Keeps)
    published-Keeps member hash (err e) = search keeps_rules

    sends-Keeps :
        (r : Option Producer)
        → r ≡ some kafka_producer
        → (topic value key : Text) → Keeps P (send_partial r topic value key)
    unfolding send_partial
    sends-Keeps r e topic value key = rw e (send-Keeps calm topic key value)

    partial-Keeps :
        (member hash : Text) (r : Result Text) → Keeps P (publish_partial m member hash r)
    partial-Keeps member hash (err e) = search keeps_rules
    partial-Keeps member hash (ok b) =
        search (keeps_rules, sends-Keeps m.producer p, published-Keeps)

    expires-Keeps :
        (policy : EgressPolicy) (member hash : Text) (st : JoinState)
        → Keeps P (expire m policy member hash st)
    unfolding expire
    expires-Keeps partial member hash st = search (keeps_rules, partial-Keeps)
    expires-Keeps inner member hash st = discards-Keeps member hash
    expires-Keeps (other x) member hash st = discards-Keeps member hash

    gets-Keeps : (hash : Text) → Keeps P (m.store.get hash)
    gets-Keeps hash = rw s (keeps.get hash)

    pub store-process_due-Keeps : Keeps P (process_due m)
    store-process_due-Keeps =
        process_due-Keeps (calm) m gets-Keeps (expires-Keeps m.join_cfg.egress)
