-- ===== src/Processor/Keeps.antt =====
-- The parts that `run` gives to a handler keep what no statement of the database can end.
use confluo.Prelude.{Text, Bool, true, false, ◌≡◌, none, some, arith, if◌then◌else◌}
use mathlib.Core.Path.{subst}
use confluo.Redis.{BloomChecker, bloom_filter, bloom_exists, bloom_add}
use confluo.Consumer.{kafka_producer, DelayPublisher, TimeoutScheduler}
use confluo.Consumer.Keeps.{PartsKeep}
use confluo.Timeout.{Manager, scheduler}
use confluo.Timeout.Keeps.{schedule_timeout-Keeps}
use confluo.Delay.{Queue, publisher}
use confluo.Delay.Keeps.{schedule-Keeps}
use confluo.World.{History}
use confluo.World.Keeps.{Keeps, IsCalm, keeps_rules}

pub some_if {ℓ} : {A : Type ℓ} (c : Bool) (x y : A) → (if c then some x else none) ≡ some y → x ≡ y
some_if true x y h = ground arith
some_if false x y h = cc

module _ {P : History → Type 0} (calm : IsCalm P) where
  exists-Keeps : (key hash : Text) → Keeps P ((bloom_filter key).exists hash)
  unfolding bloom_filter bloom_exists
  exists-Keeps key hash = search (keeps_rules, calm)

  add-Keeps : (key hash : Text) → Keeps P ((bloom_filter key).add hash)
  unfolding bloom_filter bloom_add
  add-Keeps key hash = search (keeps_rules, calm)

  pub wired-PartsKeep :
      (redis delayed : Bool) (key : Text) (m : Manager) (q : Queue)
      → PartsKeep P
          (if redis then some (bloom_filter key) else none)
          (if redis then some (scheduler m) else none)
          (if delayed then some (publisher q) else none)
  wired-PartsKeep redis delayed key m q = record {
    by_exists = λ b e hash.
        subst (λ (x : BloomChecker). Keeps P (x.exists hash)) (some_if redis _ b e)
          (exists-Keeps key hash);
    by_add = λ b e hash.
        subst (λ (x : BloomChecker). Keeps P (x.add hash)) (some_if redis _ b e)
          (add-Keeps key hash);
    by_timeout = λ t e hash at.
        subst (λ (x : TimeoutScheduler). Keeps P (x.schedule_timeout hash at)) (some_if redis _ t e)
          (schedule_timeout-Keeps calm m hash at);
    by_schedule = λ q' e hash joined key at.
        subst (λ (x : DelayPublisher). Keeps P (x.schedule hash joined key at))
          (some_if delayed _ q' e) (schedule-Keeps calm q hash joined key at);
  }

  pub send-Keeps : (topic key value : Text) → Keeps P (kafka_producer.produce_sync topic key value)
  unfolding kafka_producer
  send-Keeps topic key value = search (keeps_rules, calm)
