-- ===== src/Startup/Run.antt =====
-- `run` of cmd/processor/main.go: the checks, the two dependencies, and then the consumer. The loops of
-- the timeout managers and the delay queues start beside it, and so does the server of the probes.
use confluo.Prelude.{
  ℕ, ◌≤◌, Text, codes, ◌≡◌, refl, Option, none, some, List, [], ◌∷◌, arith, if◌then◌else◌,
}
use confluo.Fault.{Error, Result, ok, err, texts, wrapf}
use confluo.Config.{ProcessorConfig, JoinConfig, multi_config}
use confluo.Store.Schema.{StoreConfig, ensure_keyspace_and_table, new_store}
use confluo.Kafka.{new_client}
use confluo.Consumer.Run.{Poll}
use confluo.Processor.{run_single_config, run_multi_config}
use confluo.Startup.Check.{
  Check, passes, fatal, panics, check_config, IsServed, check_config-IsServed,
}
use confluo.Startup.Retry.{retry, IsClock, retry_ends}
use confluo.World.{Services, World, History, Go, ◌>>=◌, ◌>>◌, pure}
use confluo.World.Keeps.{Keeps, IsCalm, keeps_rules}

-- How the process ends: `run` returns, or a check ends it.
pub data Exit : Type 0 where
  returns : Result (Unit {0}) → Exit
  exits : Error → Exit
  panicked : Exit

-- The configuration of the store has a timeout of ten seconds.
abbrev pub store_config : ProcessorConfig → StoreConfig
store_config cfg = record {
  hosts = cfg.scylla_hosts;
  keyspace = cfg.scylla_keyspace;
  timeout = 10000000000;
}

abbrev pub group_id : Text
group_id = codes "omni-joiner-processor"

-- Thirty seconds.
abbrev pub max_duration : ℕ
max_duration = 30000000000

unfoldable pub connect_store : ProcessorConfig → Go (Unit {0})
connect_store cfg = do
  ensure_keyspace_and_table (store_config cfg)
  s ← new_store (store_config cfg)
  pure tt

unfoldable pub connect_kafka : ProcessorConfig → Go (Unit {0})
connect_kafka cfg = new_client cfg.kafka_brokers group_id cfg.input_topic

-- The `%w` stands inside this format.
abbrev pub kafka_error : ProcessorConfig → Error → Error
kafka_error cfg e =
    wrapf "connect to Kafka at %v: %w (is Redpanda running? try: docker compose up -d)"
      (texts cfg.kafka_brokers ∷ []) e

-- The configurations behind the pointers: the checks let no nil one through.
unfoldable pub present : List (Option JoinConfig) → List JoinConfig
present [] = []
present (none ∷ os) = present os
present (some jc ∷ os) = jc ∷ present os

abbrev pub serve_single : ProcessorConfig → List Poll → Option JoinConfig → Go (Unit {0})
serve_single cfg polls none = pure tt
serve_single cfg polls (some jc) = run_single_config cfg jc polls

unfoldable pub serve : ProcessorConfig → List Poll → Go (Unit {0})
unfolding present multi_config
serve cfg polls env w =
    if multi_config cfg
    then run_multi_config env.codec cfg (present cfg.join_configs) polls env w
    else serve_single cfg polls cfg.join_config env w

abbrev pub FueledExit : Type 0
FueledExit = Services → World → Option (Exit × World)

-- `if err := retry(...); err != nil { return ... }`
abbrev pub after_retry :
    (Error → Error)
    → FueledExit
    → Services
    → Option (Result (Unit {0}) × World)
    → Option (Exit × World)
after_retry f rest env none = none
after_retry f rest env (some (ok u, w)) = rest env w
after_retry f rest env (some (err e, w)) = some (returns (err (f e)), w)

abbrev pub serving : ProcessorConfig → List Poll → FueledExit
serving cfg polls env w = let (r, w') = serve cfg polls env w in some (returns r, w')

abbrev pub with_kafka : ℕ → ProcessorConfig → List Poll → FueledExit
with_kafka fuel cfg polls env w =
    after_retry (kafka_error cfg) (serving cfg polls) env
      (retry fuel max_duration (connect_kafka cfg) env w)

abbrev pub after_check : ℕ → ProcessorConfig → List Poll → Check → FueledExit
after_check fuel cfg polls passes env w =
    after_retry (λ e. e) (with_kafka fuel cfg polls) env
      (retry fuel max_duration (connect_store cfg) env w)
after_check fuel cfg polls (fatal e) env w = some (exits e, w)
after_check fuel cfg polls panics env w = some (panicked, w)

-- `run`, for the turns that the client gives it, with fuel for the attempts of each retry.
unfoldable pub run_processor : ℕ → ProcessorConfig → List Poll → FueledExit
run_processor fuel cfg polls env w = after_check fuel cfg polls (check_config cfg) env w

-- Where a check ends the process, the configuration is not one to serve, and no call was made.
abbrev pub IsExit : ProcessorConfig → World → Exit × World → Type 0
IsExit cfg w (returns r, w') = IsServed (multi_config cfg) cfg
IsExit cfg w (exits e, w') = ¬ IsServed (multi_config cfg) cfg × (w' ≡ w)
IsExit cfg w (panicked, w') = ¬ IsServed (multi_config cfg) cfg × (w' ≡ w)

abbrev pub Exits : ProcessorConfig → World → Option (Exit × World) → Type 0
Exits cfg w r = (o : Exit × World) × (r ≡ some o) × IsExit cfg w o

module _ (env : Services) (clock : IsClock env) (cfg : ProcessorConfig) (polls : List Poll) where
  abbrev NotBefore : ℕ → History → Type 0
  NotBefore t h = t ≤ env.now h

  NotBefore-IsCalm : (t : ℕ) → IsCalm (NotBefore t)
  NotBefore-IsCalm t = record { step = λ e h _ k. let m = clock.monotone e h in omega arith }

  connect_store-later :
      (w : World) → env.now w.history ≤ env.now (connect_store cfg env w).1.history
  unfolding connect_store ensure_keyspace_and_table new_store
  connect_store-later w =
      let k : Keeps (NotBefore (env.now w.history)) (connect_store cfg) =
        search (keeps_rules, NotBefore-IsCalm) depth 16 in
      k.at env w (omega arith)

  connect_kafka-later :
      (w : World) → env.now w.history ≤ env.now (connect_kafka cfg env w).1.history
  unfolding connect_kafka new_client
  connect_kafka-later w =
      let k : Keeps (NotBefore (env.now w.history)) (connect_kafka cfg) =
        search (keeps_rules, NotBefore-IsCalm) in
      k.at env w (omega arith)

  module _ (w0 : World) (served : IsServed (multi_config cfg) cfg) where
    retried :
        (f : Error → Error) (rest : FueledExit) (o : Result (Unit {0}) × World)
        → ((w : World) → Exits cfg w0 (rest env w))
        → Exits cfg w0 (after_retry f rest env (some o))
    retried f rest (ok u, w) h = h w
    retried f rest (err e, w) h = ((returns (err (f e)), w), refl, served)

    with_kafka-Exits : (w : World) → Exits cfg w0 (with_kafka 7 cfg polls env w)
    with_kafka-Exits w =
        let (o, e, _) = retry_ends env clock (connect_kafka cfg) connect_kafka-later w in
        rw e (retried (kafka_error cfg) (serving cfg polls) o (λ w1. (_, refl, served)))

    with_store-Exits : (w : World) → Exits cfg w0 (after_check 7 cfg polls passes env w)
    with_store-Exits w =
        let (o, e, _) = retry_ends env clock (connect_store cfg) connect_store-later w in
        rw e (retried (λ x. x) (with_kafka 7 cfg polls) o with_kafka-Exits)

  checked :
      (c : Check) (w : World) → check_config cfg ≡ c → Exits cfg w (after_check 7 cfg polls c env w)
  checked passes w e = with_store-Exits w ((check_config-IsServed cfg).0 e) w
  checked (fatal x) w e =
      ((exits x, w), refl, ((λ s. cc ((check_config-IsServed cfg).1 s, e)), refl))
  checked panics w e = ((panicked, w), refl, ((λ s. cc ((check_config-IsServed cfg).1 s, e)), refl))

  -- As long as the clock does not run backwards and waits take their time, whatever the services
  -- answer: seven attempts for each dependency are enough for `run` to end, over the turns that the
  -- client gives it. It returns only with configurations that are there and valid, and where a check
  -- ends the process instead, they are not and no call was made.
  pub run_processor-Exits : (w : World) → Exits cfg w (run_processor 7 cfg polls env w)
  unfolding run_processor
  run_processor-Exits w = checked (check_config cfg) w refl
