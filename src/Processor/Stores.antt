-- ===== src/Processor/Stores.antt =====
-- What a handler keeps, if its store does.
pub mod Background
pub mod Wired
use confluo.Prelude.{ℕ, Text, Bool, true, false, ◌≡◌, refl, sym, Option, none, some}
use confluo.Fault.{Result, ok, err}
use confluo.Config.{EgressPolicy, inner, partial, other}
use confluo.Engine.{JoinState}
use confluo.Store.{StateStore}
use confluo.Redis.{
  PartialTracker, redis_partial_tracker, tracker_add, tracker_contains, tracker_remove,
}
use confluo.Consumer.{
  Producer, Record, Handler, handle, kafka_producer, publish_now, publish_to, observe_join,
  observe_age, correct_late, is_late, was_partial, forget_partial, or_complete, or_fail,
  note_failure,
}
use confluo.Consumer.Keeps.{UpsertsKeep, PartsKeep, complete-Keeps, handle-Keeps}
use confluo.Timeout.{
  Manager, process_due, expire, publish_partial, after_publish, send_partial, track_partial,
  discard, unschedule,
}
use confluo.Timeout.Keeps.{process_due-Keeps}
use confluo.Delay.{Queue, flush_due, publish_and_cleanup, send, clean_up, count_failure, after_send}
use confluo.Delay.Keeps.{flush_due-Keeps}
use confluo.World.{History}
use confluo.World.Keeps.{Keeps, IsCalm, Keeps-bind, keeps_rules}
use confluo.Store.Keeps.{StoreKeeps}
use confluo.Processor.Keeps.{send-Keeps}

module _ {P : History → Type 0} (calm : IsCalm P) (st : StateStore) (keeps : StoreKeeps P st) where
  module _ (h : Handler) (scopes : h.store ≡ st) (sends : h.producer ≡ some kafka_producer)
      (parts : PartsKeep P h.bloom h.timeout_sched h.delay_queue)
      (tracker : (t : PartialTracker)
        → h.late_tracker ≡ some t
        → (hash : Text) → Keeps P (t.contains hash) × Keeps P (t.remove hash)) where
    store-Keeps : UpsertsKeep P h.store
    store-Keeps =
        rw scopes (record { by_upsert = keeps.upsert; by_upsert_only = keeps.upsert_only })

    deletes-Keeps : (hash : Text) → Keeps P (h.store.remove hash)
    deletes-Keeps hash = rw scopes (keeps.remove hash)

    to-Keeps :
        (p : Option Producer)
        → p ≡ some kafka_producer
        → (topic value key : Text) → Keeps P (publish_to p topic value key)
    unfolding publish_to
    to-Keeps p e topic value key = rw e (send-Keeps calm topic key value)

    fails-Keeps : (r : Result (Unit {0})) → Keeps P (or_fail h r)
    fails-Keeps (ok u) = search keeps_rules
    fails-Keeps (err e) = search keeps_rules

    age-Keeps : (t : Option ℕ) → Keeps P (observe_age h t)
    unfolding observe_age
    age-Keeps none = search keeps_rules
    age-Keeps (some t) = search (keeps_rules, calm)

    join-Keeps : (s : Option JoinState) (start : ℕ) → Keeps P (observe_join h s start)
    unfolding observe_join
    join-Keeps s start = search (keeps_rules, age-Keeps, calm) depth 8

    publishes-Keeps :
        (s : Option JoinState) (hash joined key : Text) (start : ℕ)
        → Keeps P (publish_now h s hash joined key start)
    unfolding publish_now
    publishes-Keeps s hash joined key start =
        search (keeps_rules, to-Keeps h.producer sends, fails-Keeps, join-Keeps, deletes-Keeps)
          depth 10

    notes-Keeps : (phase : Text) (r : Result (Unit {0})) → Keeps P (note_failure h phase r)
    notes-Keeps phase (ok u) = search keeps_rules
    notes-Keeps phase (err e) = search keeps_rules

    forgets-Keeps :
        (t : Option PartialTracker)
        → t ≡ h.late_tracker
        → (hash : Text) → Keeps P (forget_partial t hash)
    unfolding forget_partial
    forgets-Keeps none e hash = search keeps_rules
    forgets-Keeps (some t) e hash = (tracker t (sym e) hash).1

    corrects-Keeps : (s : JoinState) (hash : Text) → Keeps P (correct_late h s hash)
    unfolding correct_late
    corrects-Keeps s hash =
        search
          (
            keeps_rules,
            to-Keeps h.producer sends,
            notes-Keeps,
            forgets-Keeps h.late_tracker refl,
            deletes-Keeps,
            calm,
          )
          depth 14

    tracked-Keeps :
        (t : Option PartialTracker)
        → t ≡ h.late_tracker
        → (hash : Text) → Keeps P (was_partial t hash)
    unfolding was_partial
    tracked-Keeps none e hash = search keeps_rules
    tracked-Keeps (some t) e hash = search (keeps_rules, (tracker t (sym e) hash).0) depth 8

    late-Keeps : (s : Option JoinState) (hash : Text) → Keeps P (is_late h s hash)
    unfolding is_late
    late-Keeps none hash = search keeps_rules
    late-Keeps (some s) hash = search (keeps_rules, tracked-Keeps h.late_tracker refl)

    completes-Keeps :
        (s : Option JoinState) (hash key : Text) → Keeps P (confluo.Consumer.complete h s hash key)
    completes-Keeps s hash key =
        complete-Keeps (calm) h store-Keeps parts publishes-Keeps s hash key

    or_complete-Keeps :
        (b : Bool) (s : Option JoinState) (hash key : Text) → Keeps P (or_complete h b s hash key)
    or_complete-Keeps true (some s) hash key = corrects-Keeps s hash
    or_complete-Keeps true none hash key = completes-Keeps none hash key
    or_complete-Keeps false s hash key = completes-Keeps s hash key

    pub store-handle-Keeps : (r : Record) → Keeps P (handle h r)
    store-handle-Keeps r =
        handle-Keeps (calm) h store-Keeps parts publishes-Keeps
          (λ s hash key. Keeps-bind _ _ (late-Keeps s hash) (λ b. or_complete-Keeps b s hash key)) r
