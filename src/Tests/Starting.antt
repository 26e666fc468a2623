-- ===== src/Tests/Starting.antt =====
-- Retries of a dependency that stays down, and configuration files.
use native.Mathlib.Omega.{arith}
use confluo.Prelude.{ℕ, ◌+◌, ◌≡◌, ◌↔◌, refl, none, some, [], ◌∷◌, codes, text_eq, if◌then◌else◌}
use confluo.Fault.{ok, err, external}
use confluo.Config.{ProcessorConfig, multi_config}
use confluo.Startup.Load.{Sources, load_processor_config}
use confluo.Startup.Load.Paths.{LoadedFrom, load_processor_config-LoadedFrom}
use confluo.Startup.Check.{check_config, passes, IsServed, check_config-IsServed}
use confluo.World.{World, Services, History, Event, Go, slept, lift}
use confluo.Startup.Retry.{retry, IsClock, Ended, retry_ends}
use confluo.Startup.Main.{Ends, main, main-Ends}
use confluo.Startup.Run.{Exits, run_processor, run_processor-Exits, store_config}
use confluo.Store.Schema.{ensure_keyspace_and_table, new_store, with_defaults}
use confluo.Store.Columns.{AllFit}
use confluo.Consumer.{handle}
use confluo.Consumer.Run.{Poll, record_from_kgo}
use confluo.Processor.{single_handler}
use confluo.Processor.Schema.{Reach-AllFit, here, next, consume}
use confluo.Tests.Lab.{lab, start, settings, join_two, join_partial, event}

-- A clock that moves by the waits.
abbrev elapsed_by : Event → ℕ
elapsed_by (slept d none) = d
elapsed_by _ = 0

elapsed : History → ℕ
elapsed [] = 0
elapsed (e ∷ h) = elapsed_by e + elapsed h

abbrev ticking : Services
ticking = record lab { now = elapsed }

ticking-IsClock : IsClock ticking
unfolding elapsed
ticking-IsClock = record { monotone = λ e h. omega arith; waits = λ h d. omega arith }

abbrev refused : Go (Unit {0})
refused = lift (err (external 6))

retry_ends_example :
    Ended refused (elapsed [] + 30000000000) ticking (retry 7 30000000000 refused ticking start)
retry_ends_example = retry_ends ticking ticking-IsClock refused (λ w. omega arith) start

-- The processor's file names the files of two joins.
abbrev written : ProcessorConfig
written = record settings {
  join_config = none;
  join_configs = [];
  config_paths = codes "a" ∷ codes "b" ∷ [];
}

abbrev files : Sources
files = record {
  read_file = λ path. ok path;
  unmarshal_join = λ s. if text_eq s (codes "a") then ok join_two else ok join_partial;
  unmarshal_processor = λ s. ok written;
}

abbrev loaded : ProcessorConfig
loaded = record written { join_configs = some join_two ∷ some join_partial ∷ [] }

load_processor_config-LoadedFrom_example : LoadedFrom files (codes "p") loaded
unfolding load_processor_config text_eq
load_processor_config-LoadedFrom_example =
    load_processor_config-LoadedFrom files (codes "p") loaded refl

check_config-IsServed_example : check_config loaded ≡ passes ↔ IsServed (multi_config loaded) loaded
check_config-IsServed_example = check_config-IsServed loaded

-- One poll with one event of a join of two streams.
abbrev polled : Poll
polled = record {
  cancelled_before = none;
  cancelled_after = none;
  errors = [];
  partitions = (event (codes "A") (codes "k1") ∷ []) ∷ [];
}

run_processor-Exits_example :
    Exits settings start (run_processor 7 settings (polled ∷ []) ticking start)
run_processor-Exits_example =
    run_processor-Exits ticking ticking-IsClock settings (polled ∷ []) start

-- The tables are created, the store is made, and an event is handled.
abbrev created : World
created = (ensure_keyspace_and_table (store_config settings) lab start).1

abbrev ready : World
ready = (new_store (store_config settings) lab created).1

Reach-AllFit_example :
    AllFit
      (with_defaults (store_config settings))
      (handle
        (single_handler settings join_two)
        (record_from_kgo (event (codes "A") (codes "k1")))
        lab
        ready).1.history
unfolding ensure_keyspace_and_table new_store
Reach-AllFit_example =
    Reach-AllFit lab.codec settings (with_defaults (store_config settings)) lab start created tt
      refl refl
      (next join_two here (consume lab (record_from_kgo (event (codes "A") (codes "k1"))) ready))

main-Ends_example :
    Ends files
      (codes "p")
      (polled ∷ [])
      ticking
      start
      (main 7 files (codes "p") (polled ∷ []) ticking start)
main-Ends_example = main-Ends files (codes "p") (polled ∷ []) ticking start ticking-IsClock
