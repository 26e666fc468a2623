-- ===== src/Processor/Deletes.antt =====
-- Deletions in the whole processor: the consumer, the timeout manager and the delay queue share the
-- database, and their calls are interleaved in any order.
use mathlib.Core.Path.{subst}
use confluo.Prelude.{sym, Text, ◌≡◌, refl, Option, none, some, List, [], ◌∷◌, arith, if◌then◌else◌}
use confluo.Prelude.Int.{is_pos}
use confluo.Config.{ProcessorConfig, JoinConfig, EgressPolicy, partial}
use confluo.Engine.{JoinState}
use confluo.Store.{single_store, get_state, delete_state}
use confluo.Redis.{BloomChecker, bloom_filter}
use confluo.Consumer.{Record, handle, kafka_producer, DelayPublisher, TimeoutScheduler}
use confluo.Consumer.Deletes.{IsGuarded, IsGuarded-IsCalm, guarded_handler, guarded-handle-Keeps}
use confluo.Timeout.Keeps.{process_due-Keeps}
use confluo.Delay.Keeps.{flush_due-Keeps}
use confluo.Processor.Keeps.{wired-PartsKeep}
use confluo.Consumer.Run.{Resolver, Poll, run_once, resolver_from_single}
use confluo.Timeout
use confluo.Timeout.{
  Manager, scheduler, schedule_timeout, process_due, process_members, process_member,
  process_decoded, examine, expire, unschedule, discard, track_partial, send_partial,
}
use confluo.Delay
use confluo.Delay.{
  Queue, publisher, schedule, schedule_redis, schedule_memory, flush_item, flush_reply, flush_due,
  flush_due_memory, flush_due_redis, flush_members, flush_member, publish_and_cleanup, publish_all,
}
use confluo.World.{Tick, fires, cancels, ticker, History, Services, World}
use confluo.World.Keeps.{Keeps, keeps_rules}
use confluo.Processor.{has_redis, single_handler, single_manager, single_queue}

module _ (topic : Text) where
  -- The queue's own publication and deletion.
  cleanup-Keeps :
      (q : Queue)
      → q.producer ≡ some kafka_producer
      → q.store ≡ some single_store
      → q.topic ≡ topic
      → (hash joined key : Text) → Keeps (IsGuarded topic) (publish_and_cleanup q hash joined key)
  unfolding publish_and_cleanup kafka_producer single_store delete_state
  cleanup-Keeps q p s t hash joined key = record { at = λ env w h. ground arith }

  module _ (m : Manager) (p : m.producer ≡ some kafka_producer) (s : m.store ≡ single_store)
      (t : m.egress_topic ≡ topic) (untracked : m.partial_tracker ≡ none)
      (policy : m.join_cfg.egress ≡ partial) where
    expire_partial-Keeps :
        (member hash : Text) (st : JoinState)
        → Keeps (IsGuarded topic) (expire m partial member hash st)
    unfolding expire kafka_producer single_store delete_state unschedule
    expire_partial-Keeps member hash st = record { at = λ env w h. ground arith }

    expire-Keeps :
        (pol : EgressPolicy)
        → pol ≡ partial
        → (member hash : Text) (st : JoinState)
        → Keeps (IsGuarded topic) (expire m pol member hash st)
    expire-Keeps pol e member hash st = rw e (expire_partial-Keeps member hash st)

    get-Keeps : (hash : Text) → Keeps (IsGuarded topic) (m.store.get hash)
    get-Keeps hash =
        rw s (unfold single_store get_state in search (keeps_rules, IsGuarded-IsCalm topic))

    guarded-process_due-Keeps : Keeps (IsGuarded topic) (process_due m)
    guarded-process_due-Keeps =
        process_due-Keeps (IsGuarded-IsCalm topic) m get-Keeps
          (expire-Keeps m.join_cfg.egress policy)

module _ (cfg : ProcessorConfig) (jc : JoinConfig) (uncorrected : cfg.corrections_topic ≡ []) where
  abbrev P : History → Type 0
  P = IsGuarded cfg.egress_topic

  abbrev bloom : Option BloomChecker
  bloom = if has_redis cfg then some (bloom_filter cfg.redis_bloom_key) else none

  abbrev sched : Option TimeoutScheduler
  sched = if has_redis cfg then some (scheduler (single_manager cfg jc)) else none

  abbrev queue : Option DelayPublisher
  queue = if is_pos jc.post_join_delay then some (publisher (single_queue cfg jc)) else none

  single_handler-guarded :
      single_handler cfg jc ≡ guarded_handler jc cfg.egress_topic bloom sched queue
  unfolding single_handler
  single_handler-guarded = ground arith

  -- The consumer.
  pub single-handle-Keeps : (r : Record) → Keeps P (handle (single_handler cfg jc) r)
  single-handle-Keeps r =
      subst (λ h. Keeps P (handle h r)) (sym single_handler-guarded)
        (guarded-handle-Keeps jc cfg.egress_topic bloom sched queue
          (wired-PartsKeep (IsGuarded-IsCalm cfg.egress_topic) (has_redis cfg)
            (is_pos jc.post_join_delay) cfg.redis_bloom_key (single_manager cfg jc)
            (single_queue cfg jc))
          r)

  -- The delay queue.
  pub single-flush_due-Keeps : Keeps P (flush_due (single_queue cfg jc))
  unfolding single_queue
  single-flush_due-Keeps =
      flush_due-Keeps (IsGuarded-IsCalm cfg.egress_topic) (single_queue cfg jc)
        (cleanup-Keeps cfg.egress_topic (single_queue cfg jc) refl refl refl)

  -- The timeout manager, under the partial policy.
  pub single-process_due-Keeps : jc.egress ≡ partial → Keeps P (process_due (single_manager cfg jc))
  unfolding single_manager Timeout.new
  single-process_due-Keeps policy =
      guarded-process_due-Keeps cfg.egress_topic (single_manager cfg jc) refl refl refl
        (ground arith) policy

-- One call of one of the three parts of the process, with whatever the services answer: a record, a
-- firing of one of the tickers, or a whole turn of the consumer's loop.
pub data Step (cfg : ProcessorConfig) (jc : JoinConfig) : World → World → Type 0 where
  consume :
      (env : Services) (r : Record) (w : World)
      → Step cfg jc w (handle (single_handler cfg jc) r env w).1
  time_out :
      (env : Services) (w : World) → Step cfg jc w (process_due (single_manager cfg jc) env w).1
  settle : (env : Services) (w : World) → Step cfg jc w (flush_due (single_queue cfg jc) env w).1
  turn :
      (env : Services) (p : Poll) (w : World)
      → Step cfg jc w (run_once (resolver_from_single (single_handler cfg jc)) p env w).1

pub data Reach (cfg : ProcessorConfig) (jc : JoinConfig) (s : World) : World → Type 0 where
  here : Reach cfg jc s s
  next : {t u : World} → Reach cfg jc s t → Step cfg jc t u → Reach cfg jc s u

module _ (cfg : ProcessorConfig) (jc : JoinConfig) {s : World} (env : Services) where
  -- The two background loops of the process are such calls, one after the other.
  pub time_outs :
      (ts : List Tick) (t : World)
      → Reach cfg jc s t
      → Reach cfg jc s (Timeout.run (single_manager cfg jc) ts env t).1
  unfolding Timeout.run ticker
  time_outs [] t r = r
  time_outs (fires ∷ ts) t r =
      time_outs ts (process_due (single_manager cfg jc) env t).1 (next r (time_out env t))
  time_outs (cancels ∷ ts) t r = r

  pub settles :
      (ts : List Tick) (t : World)
      → Reach cfg jc s t
      → Reach cfg jc s (Delay.run (single_queue cfg jc) ts env t).1
  unfolding Delay.run ticker
  settles [] t r = r
  settles (fires ∷ ts) t r =
      settles ts (flush_due (single_queue cfg jc) env t).1 (next r (settle env t))
  settles (cancels ∷ ts) t r = r

module _ (cfg : ProcessorConfig) (jc : JoinConfig) (uncorrected : cfg.corrections_topic ≡ [])
    (policy : jc.egress ≡ partial) where
  abbrev resolver : Resolver
  resolver = resolver_from_single (single_handler cfg jc)
