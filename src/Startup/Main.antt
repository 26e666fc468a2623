-- ===== src/Startup/Main.antt =====
-- `main` of cmd/processor/main.go: the configuration is loaded, `run` is called, and its error ends the
-- process with a message unless a signal has cancelled the context. The flag is the path.
use confluo.Prelude.{ℕ, Text, ◌≡◌, refl, Option, none, some, List, ◌∷◌, inl, inr, ◌⊎◌}
use confluo.Fault.{Error, Result, ok, err, Result-cases}
use confluo.Config.{ProcessorConfig, multi_config}
use confluo.Consumer.Run.{Poll}
use confluo.Startup.Check.{IsServed}
use confluo.Startup.Load.{Sources, load_processor_config}
use confluo.Startup.Load.Paths.{LoadedFrom, load_processor_config-LoadedFrom}
use confluo.Startup.Retry.{IsClock}
use confluo.Startup.Run.{Exit, returns, exits, panicked, IsExit, run_processor, run_processor-Exits}
use confluo.World.{Services, World, context_checked}

-- How the process ends: `main` returns, or `log.Fatalf` of `main` or of a check ends it, or it panics.
pub data End : Type 0 where
  finishes : End
  not_loaded : Error → End
  not_checked : Error → End
  failed : Error → End
  crashes : End

-- `ctx.Err() == nil`
abbrev unless_cancelled : Error → Option Error → End
unless_cancelled e none = failed e
unless_cancelled e (some c) = finishes

abbrev after_run : Services → Exit × World → End × World
after_run env (returns (ok u), w) = (finishes, w)
after_run env (returns (err e), w) =
    let r = env.cancelled w.history in
    (unless_cancelled e r, record w { history = context_checked r ∷ w.history })
after_run env (exits e, w) = (not_checked e, w)
after_run env (panicked, w) = (crashes, w)

abbrev ended : Services → Option (Exit × World) → Option (End × World)
ended env none = none
ended env (some o) = some (after_run env o)

abbrev after_load : ℕ → List Poll → Result ProcessorConfig → Services → World → Option (End × World)
after_load fuel polls (err e) env w = some (not_loaded e, w)
after_load fuel polls (ok cfg) env w = ended env (run_processor fuel cfg polls env w)

-- `main`
unfoldable pub main : ℕ → Sources → Text → List Poll → Services → World → Option (End × World)
main fuel files path polls env w = after_load fuel polls (load_processor_config files path) env w

-- The configuration is the one that the files describe.
abbrev pub Loads : Sources → Text → ProcessorConfig → Type 0
Loads files path cfg = (load_processor_config files path ≡ ok cfg) × LoadedFrom files path cfg

-- `run` returned without an error, or with one after the context was cancelled.
abbrev pub WasDone : Option (Exit × World) → Services → World → Type 0
WasDone r env w' =
    (r ≡ some (returns (ok tt), w'))
    ⊎ ((e c : Error) × (before : World) × (r ≡ some (returns (err e), before))
        × (env.cancelled before.history ≡ some c))

-- `run` returned an error, and the context, asked after it, was not cancelled.
abbrev pub HasFailed : Error → Option (Exit × World) → Services → World → Type 0
HasFailed e r env w' =
    (before : World) × (r ≡ some (returns (err e), before))
    × (env.cancelled before.history ≡ none)
    × (w'.history ≡ context_checked none ∷ before.history)

-- What the end of the process says of the files, the configuration, `run` and the context.
module _ (files : Sources) (path : Text) (polls : List Poll) (env : Services) (w : World) where
  abbrev pub IsEnd : End × World → Type 0
  IsEnd (finishes, w') =
      (cfg : ProcessorConfig) × Loads files path cfg
      × IsServed (multi_config cfg) cfg
      × WasDone (run_processor 7 cfg polls env w) env w'
  IsEnd (not_loaded e, w') = (load_processor_config files path ≡ err e) × (w' ≡ w)
  IsEnd (not_checked e, w') =
      (cfg : ProcessorConfig) × Loads files path cfg
      × (¬ IsServed (multi_config cfg) cfg)
      × (w' ≡ w)
  IsEnd (failed e, w') =
      (cfg : ProcessorConfig) × Loads files path cfg
      × IsServed (multi_config cfg) cfg
      × HasFailed e (run_processor 7 cfg polls env w) env w'
  IsEnd (crashes, w') =
      (cfg : ProcessorConfig) × Loads files path cfg
      × (¬ IsServed (multi_config cfg) cfg)
      × (w' ≡ w)

  abbrev pub Ends : Option (End × World) → Type 0
  Ends r = (o : End × World) × (r ≡ some o) × IsEnd o

  cancelled-Ends :
      (cfg : ProcessorConfig)
      → Loads files path cfg
      → IsServed (multi_config cfg) cfg
      → (e : Error) (w1 : World) → run_processor 7 cfg polls env w ≡ some (returns (err e), w1)
      → (r : Option Error) → env.cancelled w1.history ≡ r
      → IsEnd (unless_cancelled e r, record w1 { history = context_checked r ∷ w1.history })
  cancelled-Ends cfg l s e w1 x none c = (cfg, l, s, (w1, x, c, refl))
  cancelled-Ends cfg l s e w1 x (some y) c = (cfg, l, s, inr (e, y, w1, x, c))

  run-Ends :
      (cfg : ProcessorConfig)
      → Loads files path cfg
      → (o : Exit × World) → run_processor 7 cfg polls env w ≡ some o
      → IsExit cfg w o
      → Ends (ended env (some o))
  run-Ends cfg l (returns (ok u), w1) x s = (_, refl, (cfg, l, s, inl x))
  run-Ends cfg l (returns (err e), w1) x s =
      (_, refl, cancelled-Ends cfg l s e w1 x (env.cancelled w1.history) refl)
  run-Ends cfg l (exits e, w1) x (s, same) = (_, refl, (cfg, l, s, same))
  run-Ends cfg l (panicked, w1) x (s, same) = (_, refl, (cfg, l, s, same))

  -- As long as the clock does not run backwards and waits take their time, whatever the services
  -- answer: with seven attempts for each dependency, the process ends, over the turns that the client
  -- gives it. It is stopped before any call if the file cannot be loaded, or if the configuration
  -- that the files describe is not one to serve. Otherwise it fails if `run` returned an error and
  -- the context, asked after that, was not cancelled, and it finishes if `run` returned none or the
  -- context was cancelled.
  pub main-Ends : IsClock env → Ends (main 7 files path polls env w)
  unfolding main
  main-Ends clock = elim (Result-cases (load_processor_config files path)) [
    | inl (cfg, e) ↦
        let (o, r, x) = run_processor-Exits env clock cfg polls w in
        rw (e, r) (run-Ends cfg (e, load_processor_config-LoadedFrom files path cfg e) o r x)
    | inr (x, e) ↦ rw e (_, refl, (e, refl))
  ]
