-- ===== src/Tests/Deadlines.antt =====
-- A turn of the timeout manager on a key with one of two streams.
use native.Mathlib.Omega.{arith}
use confluo.Prelude.{Text, codes, map, ◌≡◌, refl, none, some, [], ◌∷◌, List}
use confluo.Fault.{ok}
use confluo.Config.{ProcessorConfig}
use confluo.Hex.{encode}
use confluo.Timeout.{process_due}
use confluo.World.{Services, World, single, update, executed}
use confluo.World.Views.{IsHealthy}
use confluo.Processor.{single_manager}
use confluo.Processor.Turn.{Expires, process_due-Expires}
use confluo.Tests.Lab.{lab, lab-IsHealthy, start, settings, join_partial}

abbrev pub expired : List Text
expired = codes "k" ∷ codes "gone" ∷ []

-- Redis returns two members whose deadline has passed.
abbrev pub due : Services
due = record lab { range = λ h k top n. ok (map encode expired) }

pub due-IsHealthy : IsHealthy due
due-IsHealthy = record {
  exec_ok = lab-IsHealthy.exec_ok;
  command_ok = lab-IsHealthy.command_ok;
  produce_ok = lab-IsHealthy.produce_ok;
  commit_ok = lab-IsHealthy.commit_ok;
  scan_row = lab-IsHealthy.scan_row;
  query_ok = lab-IsHealthy.query_ok;
  no_false_negative = lab-IsHealthy.no_false_negative;
}

abbrev correcting : ProcessorConfig
correcting = record settings { corrections_topic = codes "fixes" }

abbrev half_joined : World
half_joined = record start {
  history =
      executed
        (update (single (codes "k")) (record {
          join_key_raw = codes "k";
          config_id = some 1;
          stream = codes "A";
          payload = codes "k1";
          arrival = 2;
        }))
        none
      ∷ [];
}

process_due-Expires_example :
    (w' : World) × (process_due (single_manager correcting join_partial) due half_joined
      ≡ (ok tt, w'))
    × Expires due.codec correcting join_partial expired half_joined w'
process_due-Expires_example =
    process_due-Expires due due-IsHealthy correcting join_partial half_joined expired (omega arith)
      refl
