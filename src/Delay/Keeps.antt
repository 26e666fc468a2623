-- ===== src/Delay/Keeps.antt =====
-- The delay queue keeps what its publications keep.
use confluo.Prelude.{ℕ, Text, List, [], ◌∷◌}
use confluo.Fault.{Result, ok, err}
use confluo.Delay.{
  Queue, publisher, count_failure, or_count, add_member, schedule, schedule_redis, schedule_memory,
  flush_item, flush_reply, flush_due, flush_due_memory, flush_due_redis, flush_members,
  flush_member, publish_and_cleanup, publish_all,
}
use confluo.World.{History, DelayedItem, Pending}
use confluo.World.Keeps.{Keeps, IsCalm, Keeps-bind, keeps_rules}
use confluo.Base64

module _ {P : History → Type 0} (calm : IsCalm P) (q : Queue) where
  count-Keeps : Keeps P (count_failure q)
  unfolding count_failure
  count-Keeps = search keeps_rules

  added-Keeps : (r : Result (Unit {0})) → Keeps P (or_count q r)
  added-Keeps (ok u) = search keeps_rules
  added-Keeps (err e) = count-Keeps

  packed-Keeps : (score : ℕ) (r : Result Text) → Keeps P (add_member q score r)
  packed-Keeps score (err e) = count-Keeps
  packed-Keeps score (ok m) = search (keeps_rules, added-Keeps, calm)

  redis-Keeps : (hash joined key : Text) (at : ℕ) → Keeps P (schedule_redis q hash joined key at)
  unfolding schedule_redis
  redis-Keeps hash joined key at = search (keeps_rules, packed-Keeps)

  appended-Keeps :
      (hash joined key : Text) (at : ℕ) → Keeps P (schedule_memory q hash joined key at)
  unfolding schedule_memory
  appended-Keeps hash joined key at = search keeps_rules

  pub schedule-Keeps :
      (hash joined key : Text) (at : ℕ) → Keeps P ((publisher q).schedule hash joined key at)
  unfolding publisher schedule
  schedule-Keeps hash joined key at = search (keeps_rules, redis-Keeps, appended-Keeps)

  module _
      (cleans : (hash joined key : Text) → Keeps P (publish_and_cleanup q hash joined key)) where
    publish_all-Keeps : (items : List Pending) → Keeps P (publish_all q items)
    unfolding publish_all
    publish_all-Keeps [] = search keeps_rules
    publish_all-Keeps (i ∷ items) =
        Keeps-bind _ _ (cleans i.join_key_hash i.joined_bytes i.msg_key)
          (λ _. publish_all-Keeps items)

    memory-Keeps : Keeps P (flush_due_memory q)
    unfolding flush_due_memory
    memory-Keeps = search (keeps_rules, publish_all-Keeps, calm) depth 8

    item-Keeps : (r : Result DelayedItem) → Keeps P (flush_item q r)
    item-Keeps (err e) = search keeps_rules
    item-Keeps (ok i) = cleans (Base64.decode i.h) (Base64.decode i.j) (Base64.decode i.k)

    member-Keeps : (m : Text) → Keeps P (flush_member q m)
    unfolding flush_member
    member-Keeps m = search (keeps_rules, item-Keeps, calm) depth 8

    members-Keeps : (ms : List Text) → Keeps P (flush_members q ms)
    unfolding flush_members
    members-Keeps [] = search keeps_rules
    members-Keeps (m ∷ ms) = Keeps-bind _ _ (member-Keeps m) (λ _. members-Keeps ms)

    reply-Keeps : (r : Result (List Text)) → Keeps P (flush_reply q r)
    reply-Keeps (err e) = search keeps_rules
    reply-Keeps (ok ms) = members-Keeps ms

    pub flush_due-Keeps : Keeps P (flush_due q)
    unfolding flush_due flush_due_redis
    flush_due-Keeps = search (keeps_rules, memory-Keeps, reply-Keeps, calm) depth 9
