-- ===== src/Delay/Memory.antt =====
-- The queue in memory.
use confluo.Prelude.{
  ℕ, Text, false, not, ◌≡◌, refl, ap, ◌∙◌, if◌then◌else◌, some, List, [], ◌∷◌, arith, select,
  text_eq_refl, ◌==◌,
}
use confluo.Fault.{ok}
use confluo.Store.{single_store, delete_state}
use confluo.Consumer.{kafka_producer}
use confluo.World.{Services, World, Pending, clock_read}
use confluo.World.Views.{IsHealthy, sent}
use confluo.Delay.{
  Queue, uses_redis, is_due, publish_all, flush_due, flush_due_memory, publish_and_cleanup,
}

-- The messages of some items, newest first, on top of those that were sent before.
unfoldable pub sent_items : List Pending → List (Text × Text) → List (Text × Text)
sent_items [] before = before
sent_items (p ∷ ps) before = sent_items ps ((p.msg_key, p.joined_bytes) ∷ before)

module _ (env : Services) (sound : IsHealthy env) (q : Queue) (p : q.producer ≡ some kafka_producer)
    (s : q.store ≡ some single_store) where
  publish-sent :
      (w : World) (hash joined key : Text)
      → sent q.topic (publish_and_cleanup q hash joined key env w).1.history
        ≡ (key, joined) ∷ sent q.topic w.history
  unfolding publish_and_cleanup kafka_producer single_store delete_state sent
  publish-sent w hash joined key =
      ground (arith, sound.produce_ok w.history q.topic key joined, text_eq_refl q.topic)

  publish-ok :
      (w : World) (hash joined key : Text) → (publish_and_cleanup q hash joined key env w).0 ≡ ok tt
  unfolding publish_and_cleanup
  publish-ok w hash joined key = ground arith

  publish-pending :
      (w : World) (hash joined key : Text)
      → (publish_and_cleanup q hash joined key env w).1.pending ≡ w.pending
  unfolding publish_and_cleanup kafka_producer single_store delete_state
  publish-pending w hash joined key = ground arith

  all-sent :
      (w : World) (items : List Pending)
      → sent q.topic (publish_all q items env w).1.history
        ≡ sent_items items (sent q.topic w.history)
  unfolding publish_all sent_items
  all-sent w [] = refl
  all-sent w (i ∷ items) =
      let w1 : World = (publish_and_cleanup q i.join_key_hash i.joined_bytes i.msg_key env w).1 in
      ground (
        arith,
        publish-ok w i.join_key_hash i.joined_bytes i.msg_key,
        publish-sent w i.join_key_hash i.joined_bytes i.msg_key,
        all-sent w1 items,
      )

  all-pending :
      (w : World) (items : List Pending) → (publish_all q items env w).1.pending ≡ w.pending
  unfolding publish_all
  all-pending w [] = refl
  all-pending w (i ∷ items) =
      let w1 : World = (publish_and_cleanup q i.join_key_hash i.joined_bytes i.msg_key env w).1 in
      ground (
        arith,
        publish-ok w i.join_key_hash i.joined_bytes i.msg_key,
        publish-pending w i.join_key_hash i.joined_bytes i.msg_key,
        all-pending w1 items,
      )

  -- In a healthy system, with a queue that has the Kafka producer and the store and uses no Redis: a
  -- flush sends exactly the items that are due, in the order in which they were scheduled, and keeps
  -- exactly the others, in their order.
  pub flush_due_memory_lem :
      (w : World)
      → uses_redis q ≡ false
      → let w' = (flush_due q env w).1 in
        let due = is_due (env.now w.history) in
        (sent q.topic w'.history
          ≡ sent_items (select due (w.pending q.memory)) (sent q.topic w.history))
        × (w'.pending q.memory ≡ select (λ i. not (due i)) (w.pending q.memory))
  unfolding flush_due flush_due_memory
  flush_due_memory_lem w memory =
      let now = env.now w.history in
      let w1 : World = record w {
        history = clock_read now ∷ w.history;
        pending = λ i.
            if i == q.memory
            then select (λ x. not (is_due now x)) (w.pending q.memory)
            else w.pending i;
      } in
      let due = select (is_due now) (w.pending q.memory) in
      let same : sent q.topic w1.history ≡ sent q.topic w.history = unfold sent in refl in
      rw memory (
        all-sent w1 due ∙ ap (sent_items due) same,
        ap (λ (f : ℕ → List Pending). f q.memory) (all-pending w1 due) ∙ ground arith,
      )
