-- ===== src/Tests/Committing.antt =====
-- A run of two polls, with one configuration and with two. One record has no headers.
use confluo.Prelude.{codes, none, [], ◌∷◌, List}
use confluo.Consumer.Run.{Poll, resolver_from_single, resolver_from_map}
use confluo.Consumer.Run.Acks.Accounts.{Accounted}
use confluo.Consumer.Run.Acks.Loop.{polled}
use confluo.Processor.{single_handler, multi_handlers, run_single_config, run_multi_config}
use confluo.Processor.Commits.{run-commits}
use confluo.World.{KafkaRecord}
use confluo.Tests.Lab.{start, settings, join_two, event, pair_events}
use confluo.Tests.Several.{naming, labelled, other_join}

abbrev unlabelled : KafkaRecord
unlabelled = record (event (codes "A") (codes "k1")) { headers = [] }

abbrev poll_of : List KafkaRecord → Poll
poll_of recs = record {
  cancelled_before = none;
  cancelled_after = none;
  errors = [];
  partitions = recs ∷ [];
}

abbrev polls : List Poll
polls = poll_of (labelled ∷ unlabelled ∷ []) ∷ poll_of pair_events ∷ []

run-commits_example :
    Accounted
      (resolver_from_single (single_handler settings join_two))
      naming
      (polled polls)
      start.history
      (run_single_config settings join_two polls naming start).1.history
    × Accounted
        (resolver_from_map naming.codec
          (multi_handlers naming.codec settings (join_two ∷ other_join ∷ []) []))
        naming
        (polled polls)
        start.history
        (run_multi_config naming.codec settings
          (join_two ∷ other_join ∷ [])
          polls
          naming
          start).1.history
run-commits_example =
    run-commits naming.codec settings naming join_two (join_two ∷ other_join ∷ []) polls start
