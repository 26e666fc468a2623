-- ===== src/Tests/Several.antt =====
-- Two configurations, of which one is served.
use native.Mathlib.Omega.{arith}
use confluo.Prelude.{◌≡◌, refl, codes, none, [], ◌∷◌, if◌then◌else◌, text_eq}
use confluo.Fault.{ok, err}
use confluo.Config.{JoinConfig}
use confluo.Consumer.{handle, find_header, config_id_header}
use confluo.Consumer.Run.{Poll, record_from_kgo, get_config_id}
use confluo.Timeout.{process_due}
use confluo.Delay.{flush_due}
use confluo.World.{World, Services, KafkaRecord, scoped}
use confluo.World.Views.{row_after}
use confluo.Processor.{multi_handler, multi_manager, multi_queue, run_multi_config}
use confluo.Processor.Isolation.{here, next, consume, time_out, settle, Reach-RowIs}
use confluo.Processor.Routing.{run_multi_config_isolated}
use confluo.Tests.Lab.{lab, start, settings, join_two, join_partial, event}

-- A header names a configuration by one number.
abbrev pub naming : Services
naming = record lab {
  codec = record lab.codec {
    parse_uuid = λ s. if text_eq s (1 ∷ []) then ok 1 else err (confluo.Fault.external 2);
  };
}

abbrev pub labelled : KafkaRecord
labelled = record (event (codes "A") (codes "k1")) {
  headers = (config_id_header, 1 ∷ []) ∷ (codes "x-stream-id", codes "A") ∷ [];
}

abbrev served : World
served =
    (flush_due (multi_queue settings join_partial) naming
      (process_due (multi_manager naming.codec settings join_partial) naming
        (handle (multi_handler naming.codec settings join_partial) (record_from_kgo labelled) naming
          start).1).1).1

Reach-RowIs_example :
    row_after served.history (scoped 2 (codes "k")) ≡ row_after start.history (scoped 2 (codes "k"))
Reach-RowIs_example =
    Reach-RowIs naming.codec settings (λ id. id ≡ 1) (scoped 2 (codes "k")) (λ id e. omega arith)
      (next join_partial refl
        (next join_partial refl
          (next join_partial refl here (consume naming (record_from_kgo labelled) start))
          (time_out naming _))
        (settle naming _))

abbrev pub other_join : JoinConfig
other_join = record join_two { config_id = 2 }

abbrev one_poll : Poll
one_poll = record {
  cancelled_before = none;
  cancelled_after = none;
  errors = [];
  partitions = (labelled ∷ []) ∷ [];
}

run_multi_config_isolated_example :
    row_after
      (run_multi_config naming.codec settings
        (join_two ∷ other_join ∷ [])
        (one_poll ∷ [])
        naming
        start).1.history
      (scoped 2 (codes "k"))
    ≡ row_after start.history (scoped 2 (codes "k"))
unfolding get_config_id find_header text_eq record_from_kgo
run_multi_config_isolated_example =
    run_multi_config_isolated naming.codec settings 2 (codes "k") (join_two ∷ other_join ∷ [])
      (one_poll ∷ []) (((λ e. ground arith, tt), tt), tt) naming start
