-- ===== src/Delay/Interleaving.antt =====
-- The queue in memory between goroutines: `Schedule` of the consumer runs at any moment of a flush, and
-- the mutex makes one step of each access to the list.
use mathlib.Core.Path.{subst}
use confluo.Prelude.{
  sym, ℕ, suc, ◌+◌, Text, Bool, false, not, ◌≡◌, refl, ◌⊎◌, inl, inr, some, List, [], ◌∷◌, ◌++◌,
  arith, select, text_eq, text_eq_refl, if◌then◌else◌,
}
use confluo.Fault.{ok}
use confluo.Store.{single_store, scoped_store, delete_state, delete_state_v2}
use confluo.Consumer.{kafka_producer}
use confluo.World.{Services, World, History, Event, Pending, produced}
use confluo.Delay.{
  Queue, uses_redis, is_due, schedule, schedule_memory, cut_due, publish_and_cleanup, publish_all,
  flush_due, flush_due_memory,
}

-- The list under the lock, and the items that the current flush has cut out and not yet published.
pub record Shared : Type 0 where
  pub world : World
  pub flying : List Pending

-- The messages that were given to Kafka on a topic, acknowledged or not, newest first.
abbrev pub tried_step : Text → Event → List (Text × Text) → List (Text × Text)
tried_step topic (produced t k v r) before = if text_eq t topic then (k, v) ∷ before else before
tried_step topic _ before = before

unfoldable pub tried : Text → History → List (Text × Text)
tried topic [] = []
tried topic (e ∷ h) = tried_step topic e (tried topic h)

-- How many messages pass a test.
unfoldable pub number : (Text × Text → Bool) → List (Text × Text) → ℕ
number p [] = 0
number p (x ∷ xs) = let rest = number p xs in if p x then suc rest else rest

-- How many items have a message that passes a test.
unfoldable pub items : (Text × Text → Bool) → List Pending → ℕ
items p [] = 0
items p (i ∷ is) = let rest = items p is in if p (i.msg_key, i.joined_bytes) then suc rest else rest

items-append :
    (p : Text × Text → Bool) (xs ys : List Pending) → items p (xs ++ ys) ≡ items p xs + items p ys
unfolding items
items-append p [] ys = omega arith
items-append p (x ∷ xs) ys = ground (arith, items-append p xs ys)

-- A cut divides the list.
items-select :
    (p : Text × Text → Bool) (now : ℕ) (xs : List Pending)
    → items p (select (is_due now) xs) + items p (select (λ i. not (is_due now i)) xs) ≡ items p xs
unfolding items select
items-select p now [] = omega arith
items-select p now (x ∷ xs) = ground (arith, items-select p now xs)

module _ (q : Queue) where
  -- One step of a goroutine that works with the queue, with the items that it schedules: `Schedule`,
  -- the locked part of a flush when the flush before has ended, or one publication of a flush.
  pub data Step : Shared → Shared → List Pending → Type 0 where
    schedules :
        (env : Services) (i : Pending) (w : World) (f : List Pending)
        → Step
            (record { world = w; flying = f })
            (record {
              world = (schedule q i.join_key_hash i.joined_bytes i.msg_key i.publish_at env w).1;
              flying = f;
            })
            (i ∷ [])
    cuts :
        (env : Services) (w w' : World) (due : List Pending)
        → cut_due q env w ≡ (ok due, w')
        → Step (record { world = w; flying = [] }) (record { world = w'; flying = due }) []
    publishes :
        (env : Services) (i : Pending) (rest : List Pending) (w : World)
        → Step
            (record { world = w; flying = i ∷ rest })
            (record {
              world = (publish_and_cleanup q i.join_key_hash i.joined_bytes i.msg_key env w).1;
              flying = rest;
            })
            []

  -- Steps in any order, with the items that were scheduled, newest first.
  pub data Reach (s : Shared) : Shared → List Pending → Type 0 where
    here : Reach s s []
    next : {t u : Shared} {xs ys : List Pending} → Reach s t xs → Step t u ys → Reach s u (ys ++ xs)

  -- The queue has one of the two stores of the process.
  abbrev pub HasStore : Type 0
  HasStore = (q.store ≡ some single_store) ⊎ ((c : ℕ) × (q.store ≡ some (scoped_store c)))

  -- Of each kind of message, those that wait, are in flight or were given to Kafka.
  abbrev pub total : (Text × Text → Bool) → Shared → ℕ
  total p s =
      number p (tried q.topic s.world.history)
      + items p s.flying
      + items p (s.world.pending q.memory)

  module _ (producer : q.producer ≡ some kafka_producer) (store : HasStore)
      (memory : uses_redis q ≡ false) where
    publish-tried :
        HasStore
        → (env : Services) (w : World) (hash joined key : Text)
        → tried q.topic (publish_and_cleanup q hash joined key env w).1.history
          ≡ (key, joined) ∷ tried q.topic w.history
    unfolding publish_and_cleanup kafka_producer single_store delete_state scoped_store
        delete_state_v2 tried
    publish-tried (inl s) env w hash joined key = ground (arith, text_eq_refl q.topic)
    publish-tried (inr (c, s)) env w hash joined key = ground (arith, text_eq_refl q.topic)

    publish-pending :
        HasStore
        → (env : Services) (w : World) (hash joined key : Text)
        → (publish_and_cleanup q hash joined key env w).1.pending ≡ w.pending
    unfolding publish_and_cleanup kafka_producer single_store delete_state scoped_store
        delete_state_v2
    publish-pending (inl s) env w hash joined key = ground arith
    publish-pending (inr (c, s)) env w hash joined key = ground arith

    Step-total :
        (p : Text × Text → Bool) {s t : Shared} {xs : List Pending}
        → Step s t xs
        → total p t ≡ total p s + items p xs
    unfolding schedule schedule_memory cut_due number items tried
    Step-total p (schedules env i w f) =
        ground (arith, items-append p (w.pending q.memory) (i ∷ []))
    Step-total p (cuts env w w' due e) =
        ground (arith, items-select p (env.now w.history) (w.pending q.memory))
    Step-total p (publishes env i rest w) = ground (
      arith,
      publish-tried store env w i.join_key_hash i.joined_bytes i.msg_key,
      publish-pending store env w i.join_key_hash i.joined_bytes i.msg_key,
    )

    -- For one queue with the Kafka producer, a store of the process and no Redis, whatever the
    -- services answer and however calls of `Schedule` on it, the locked parts of its flushes and
    -- their publications are interleaved: of every kind of message, told by any test of key and
    -- bytes, exactly as many more wait, are in flight or were given to Kafka as were scheduled.
    pub Reach-total :
        (p : Text × Text → Bool) {s t : Shared} {xs : List Pending}
        → Reach s t xs
        → total p t ≡ total p s + items p xs
    unfolding items
    Reach-total p here = omega arith
    Reach-total p (next {xs} {ys} r st) =
        omega (arith, Reach-total p r, Step-total p st, items-append p ys xs)

    publish-ok :
        (env : Services) (w : World) (hash joined key : Text)
        → (publish_and_cleanup q hash joined key env w).0 ≡ ok tt
    unfolding publish_and_cleanup
    publish-ok env w hash joined key = ground arith

    all-Reach :
        (env : Services) (is : List Pending) (w : World) {s : Shared} {xs : List Pending}
        → Reach s (record { world = w; flying = is }) xs
        → Reach s (record { world = (publish_all q is env w).1; flying = [] }) xs
    unfolding publish_all
    all-Reach env [] w r = r
    all-Reach env (i ∷ is) w {s} {xs} r =
        let w1 : World = (publish_and_cleanup q i.join_key_hash i.joined_bytes i.msg_key env w).1 in
        let same : publish_all q (i ∷ is) env w ≡ publish_all q is env w1 =
          ground (arith, publish-ok env w i.join_key_hash i.joined_bytes i.msg_key) in
        subst (λ o. Reach s (record { world = o.1; flying = [] }) xs) (sym same)
          (all-Reach env is w1 (next r (publishes env i is w)))

    -- A flush with nothing between its calls is one of these interleavings.
    pub flush_due-Reach :
        (env : Services) (w : World) {s : Shared} {xs : List Pending}
        → Reach s (record { world = w; flying = [] }) xs
        → Reach s (record { world = (flush_due q env w).1; flying = [] }) xs
    unfolding flush_due flush_due_memory
    flush_due-Reach env w r =
        let due = select (is_due (env.now w.history)) (w.pending q.memory) in
        rw memory (
          all-Reach env due (cut_due q env w).1
            (next r (cuts env w (cut_due q env w).1 due (unfold cut_due in refl))))
