-- ===== src/Consumer/Keeps.antt =====
-- The handler keeps what its parts keep.
use confluo.Prelude.{sym, ℕ, Text, ◌≡◌, refl, Option, none, some}
use confluo.Keys.{JoinKey}
use confluo.Engine.{JoinState}
use confluo.World.{History, ◌>>=◌}
use confluo.World.Keeps.{Keeps, IsCalm, keeps_rules, Keeps-wrap}
use confluo.Store.{StateStore}
use confluo.Redis.{BloomChecker}
use confluo.Consumer.{
  or_complete, Handler, Record, handle, publish_now, first_arrival, next_arrival, maybe_seen,
  complete, finish, publish_or_delay, remember, start_timeout, is_late, DelayPublisher,
  TimeoutScheduler,
}

-- The writes of a store.
pub record UpsertsKeep (P : History → Type 0) (s : StateStore) : Type 0 where
  pub by_upsert :
      (hash raw : Text) (c : ℕ) (stream payload : Text)
      → Keeps P (s.upsert hash raw c stream payload)
  pub by_upsert_only :
      (hash raw : Text) (c : ℕ) (stream payload : Text)
      → Keeps P (s.upsert_only hash raw c stream payload)

-- The parts that a handler may do without.
pub record PartsKeep (P : History → Type 0) (bloom : Option BloomChecker)
    (sched : Option TimeoutScheduler) (queue : Option DelayPublisher) : Type 0 where
  pub by_exists : (b : BloomChecker) → bloom ≡ some b → (hash : Text) → Keeps P (b.exists hash)
  pub by_add : (b : BloomChecker) → bloom ≡ some b → (hash : Text) → Keeps P (b.add hash)
  pub by_timeout :
      (t : TimeoutScheduler)
      → sched ≡ some t
      → (hash : Text) (at : ℕ) → Keeps P (t.schedule_timeout hash at)
  pub by_schedule :
      (q : DelayPublisher)
      → queue ≡ some q
      → (hash joined key : Text) (at : ℕ) → Keeps P (q.schedule hash joined key at)

module _ {P : History → Type 0} (calm : IsCalm P) (h : Handler) (store : UpsertsKeep P h.store)
    (parts : PartsKeep P h.bloom h.timeout_sched h.delay_queue)
    (publishes : (state : Option JoinState) (hash joined key : Text) (start : ℕ)
      → Keeps P (publish_now h state hash joined key start)) where
  queue_or_now :
      (o : Option DelayPublisher)
      → o ≡ h.delay_queue
      → (state : Option JoinState) (hash joined key : Text) (start : ℕ)
      → Keeps P (publish_or_delay h o state hash joined key start)
  unfolding publish_or_delay
  queue_or_now none e state hash joined key start = publishes state hash joined key start
  queue_or_now (some q) e state hash joined key start =
      search (keeps_rules, parts.by_schedule q (sym e), publishes, calm)

  finish-Keeps :
      (state : Option JoinState) (hash : Text) (joined : Option Text) (key : Text) (start : ℕ)
      → Keeps P (finish h state hash joined key start)
  unfolding finish
  finish-Keeps state hash none key start = search keeps_rules
  finish-Keeps state hash (some joined) key start =
      search (keeps_rules, queue_or_now h.delay_queue refl)

  pub complete-Keeps :
      (state : Option JoinState) (hash key : Text) → Keeps P (complete h state hash key)
  unfolding complete
  complete-Keeps state hash key = search (keeps_rules, finish-Keeps, calm)

  timeout-Keeps :
      (o : Option TimeoutScheduler)
      → o ≡ h.timeout_sched
      → (hash : Text) → Keeps P (start_timeout h o hash)
  unfolding start_timeout
  timeout-Keeps none e hash = search keeps_rules
  timeout-Keeps (some t) e hash = search (keeps_rules, parts.by_timeout t (sym e), calm)

  remember-Keeps :
      (o : Option BloomChecker) → o ≡ h.bloom → (hash : Text) → Keeps P (remember o hash)
  unfolding remember
  remember-Keeps none e hash = search keeps_rules
  remember-Keeps (some b) e hash = Keeps-wrap _ _ (parts.by_add b (sym e) hash)

  seen-Keeps : (o : Option BloomChecker) → o ≡ h.bloom → (hash : Text) → Keeps P (maybe_seen o hash)
  unfolding maybe_seen
  seen-Keeps none e hash = search keeps_rules
  seen-Keeps (some b) e hash = Keeps-wrap _ _ (parts.by_exists b (sym e) hash)

  first-Keeps :
      (key : JoinKey) (stream payload : Text) → Keeps P (first_arrival h key stream payload)
  unfolding first_arrival
  first-Keeps key stream payload = search (
    keeps_rules,
    store.by_upsert_only,
    remember-Keeps h.bloom refl,
    timeout-Keeps h.timeout_sched refl,
  )

  module _
      (decides : (state : Option JoinState) (hash key : Text)
        → Keeps P (is_late h state hash >>= λ c. or_complete h c state hash key)) where
    next-Keeps :
        (key : JoinKey) (stream payload msg_key : Text)
        → Keeps P (next_arrival h key stream payload msg_key)
    unfolding next_arrival
    next-Keeps key stream payload msg_key = search (keeps_rules, store.by_upsert, decides)

    pub handle-Keeps : (r : Record) → Keeps P (handle h r)
    unfolding handle
    handle-Keeps r = search (keeps_rules, first-Keeps, next-Keeps, seen-Keeps h.bloom refl) depth 10
