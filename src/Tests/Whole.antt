-- ===== src/Tests/Whole.antt =====
-- One event, and a turn of the timeout manager that finds its key.
use native.Mathlib.Omega.{arith}
use confluo.Prelude.{codes, map, refl, [], ◌∷◌, List, ◌++◌}
use confluo.Config.{JoinConfig, partial, width}
use confluo.JoinSpec.Deadlines.{arrive, lapse}
use confluo.Timeout.{process_due}
use confluo.World.{World, KafkaRecord}
use confluo.World.Views.{row_after}
use confluo.Processor.{single_manager}
use confluo.Processor.Join.{IsInner, serve}
use confluo.Processor.Moves.{Moves}
use confluo.Processor.Serve.{arrivals_of}
use confluo.Processor.Sound.{IsSound}
use confluo.Processor.Whole.{here, next, serves, expires, Turns-Moves}
use confluo.Tests.Deadlines.{due, due-IsHealthy, expired}
use confluo.Tests.Lab.{lab-IsJson, start, settings, join_two, event}

abbrev prompt : JoinConfig
prompt = record join_two { egress = partial }

prompt-IsInner : IsInner settings prompt
unfolding width
prompt-IsInner = record {
  with_redis = refl;
  no_corrections = refl;
  no_delay = refl;
  wide = omega arith;
}

start-IsSound : IsSound due settings start
unfolding row_after
start-IsSound = record { told = λ k s e. cc e; decodes = λ k. tt }

abbrev one_event : List KafkaRecord
one_event = event (codes "A") (codes "k1") ∷ []

abbrev served : World
served = serve due settings prompt one_event start

Turns-Moves_example :
    Moves due settings prompt
      (map arrive (arrivals_of due.codec prompt one_event) ++ map lapse expired)
      start
      (process_due (single_manager settings prompt) due served).1
Turns-Moves_example =
    Turns-Moves due settings prompt due-IsHealthy lab-IsJson prompt-IsInner start-IsSound
      (next (next here (serves one_event)) (expires expired (omega arith) refl))
