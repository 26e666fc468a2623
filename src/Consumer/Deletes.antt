-- ===== src/Consumer/Deletes.antt =====
-- Whatever the services answer, the handler deletes a state only behind a message that Kafka has
-- acknowledged on the egress topic.
use confluo.Prelude.{
  ℕ, Text, false, ◌≡◌, refl, Option, none, some, [], ◌∷◌, arith, Bool-cases, inl, inr, ltb, length,
}
use confluo.Config.{JoinConfig, width}
use confluo.Engine.{JoinState}
use confluo.World.{
  committed, History, Event, pure, ◌>>=◌, executed, scanned, produced, update, delete, exec, RowKey,
  Assignments,
}
use confluo.World.Keeps.{Keeps, IsCalm, IsCall, keeps_rules, Keeps-exec}
use confluo.Consumer.Keeps.{UpsertsKeep, PartsKeep, complete-Keeps, handle-Keeps}
use confluo.Store.{
  single_store, upsert_participant, upsert_participant_only, get_state, delete_state,
}
use confluo.Redis.{BloomChecker}
use confluo.Consumer.{
  or_complete, Handler, Record, kafka_producer, handle, publish_now, publish_to, observe_join,
  is_late, DelayPublisher, TimeoutScheduler,
}

-- Before one event: an acknowledged message, with no call of the database since.
abbrev pub SentBefore : Text → Event → Type 0 → Type 0
SentBefore topic (produced t k v none) before = t ≡ topic
SentBefore topic (produced t k v (some e)) before = ⊥
SentBefore topic (executed s r) before = ⊥
SentBefore topic (scanned k r) before = ⊥
SentBefore topic _ before = before

abbrev pub JustSent : Text → History → Type 0
JustSent topic [] = ⊥
JustSent topic (e ∷ h) = SentBefore topic e (JustSent topic h)

abbrev pub Guarded : Text → Event → History → Type 0
Guarded topic (executed (delete k) r) h = JustSent topic h
Guarded topic _ h = Unit

-- Every DELETE stands right behind an acknowledged message on the topic.
abbrev pub IsGuarded : Text → History → Type 0
IsGuarded topic [] = Unit
IsGuarded topic (e ∷ h) = Guarded topic e h × IsGuarded topic h

pub IsGuarded-IsCalm : (topic : Text) → IsCalm (IsGuarded topic)
IsGuarded-IsCalm topic = record { step = go }
  where
    go : (e : Event) (h : History) → IsCall e → IsGuarded topic h → IsGuarded topic (e ∷ h)
    go (executed s r) h x g = absurd x
    go (committed rec r) h x g = absurd x
    go _ h x g = (tt, g)

-- A handler of the database and of Kafka that sends no corrections.
abbrev pub guarded_handler :
    JoinConfig
    → Text
    → Option BloomChecker
    → Option TimeoutScheduler
    → Option DelayPublisher
    → Handler
guarded_handler jc topic bloom sched queue = record {
  store = single_store;
  join_cfg = jc;
  producer = some kafka_producer;
  egress_topic = topic;
  bloom = bloom;
  timeout_sched = sched;
  delay_queue = queue;
  late_tracker = none;
  corrections_topic = [];
}

-- The filter, the scheduler and the delay queue are any that delete nothing.
module _ (jc : JoinConfig) (topic : Text) (bloom : Option BloomChecker)
    (sched : Option TimeoutScheduler) (queue : Option DelayPublisher)
    (parts : PartsKeep (IsGuarded topic) bloom sched queue) where
  abbrev guarded : Handler
  guarded = guarded_handler jc topic bloom sched queue

  publish_now-Keeps :
      (state : Option JoinState) (hash joined key : Text) (start : ℕ)
      → Keeps (IsGuarded topic) (publish_now guarded state hash joined key start)
  unfolding publish_now publish_to kafka_producer observe_join single_store delete_state
  publish_now-Keeps state hash joined key start = record { at = λ env w h. ground arith }

  update-Keeps : (k : RowKey) (a : Assignments) → Keeps (IsGuarded topic) (exec (update k a))
  update-Keeps k a = Keeps-exec (update k a) (λ h r g. (tt, g))

  upsert_only-Keeps :
      (hash raw : Text) (c : ℕ) (stream payload : Text)
      → Keeps (IsGuarded topic) (upsert_participant_only hash raw c stream payload)
  unfolding upsert_participant_only
  upsert_only-Keeps hash raw c stream payload =
      search (keeps_rules, IsGuarded-IsCalm topic, update-Keeps)

  upsert-Keeps :
      (hash raw : Text) (c : ℕ) (stream payload : Text)
      → Keeps (IsGuarded topic) (upsert_participant hash raw c stream payload)
  unfolding upsert_participant get_state
  upsert-Keeps hash raw c stream payload =
      search (keeps_rules, upsert_only-Keeps, IsGuarded-IsCalm topic)

  is_late-none : (state : Option JoinState) (hash : Text) → is_late guarded state hash ≡ pure false
  unfolding is_late
  is_late-none none hash = refl
  is_late-none (some s) hash = elim (Bool-cases (ltb (length s.participant_data) (width jc))) [
    | inl e ↦ rw e
    | inr e ↦ rw e
  ]

  store-Keeps : UpsertsKeep (IsGuarded topic) single_store
  unfolding single_store
  store-Keeps = record { by_upsert = upsert-Keeps; by_upsert_only = upsert_only-Keeps }

  after_upsert-Keeps :
      (state : Option JoinState) (hash key : Text)
      → Keeps
          (IsGuarded topic)
          (is_late guarded state hash >>= λ c. or_complete guarded c state hash key)
  after_upsert-Keeps state hash key = rw (is_late-none state hash) (
      complete-Keeps (IsGuarded-IsCalm topic) guarded store-Keeps parts publish_now-Keeps state hash
        key)

  pub guarded-handle-Keeps : (r : Record) → Keeps (IsGuarded topic) (handle guarded r)
  guarded-handle-Keeps r =
      handle-Keeps (IsGuarded-IsCalm topic) guarded store-Keeps parts publish_now-Keeps
        after_upsert-Keeps r
