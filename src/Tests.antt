-- ===== src/Tests.antt =====
-- The theorems at concrete inputs, and runs of the model.
mod Lab
mod Loop
mod Data
mod Later
mod Deadlines
mod Probes
mod Late
mod Several
mod Orphans
mod Starting
mod Orders
mod Whole
mod Committing
mod Interleaved
use native.Mathlib.Omega.{arith}
use confluo.Prelude.{codes, ◌≡◌, refl, none, some, List, [], ◌∷◌, ◌≤◌, Text}
use confluo.World.{KafkaRecord}
use confluo.World.Views.{sent, row_after}
use confluo.Processor.Steps.{joined_text}
use confluo.Processor.Sound.{IsSound, table_of}
use confluo.JoinSpec.Rounds.{gather, table_after, of_key}
use confluo.JoinSpec.{Arrival}
use confluo.Processor.Join.{IsInner, serve, serve-Serves, serve_isolated, serve_joins}
use confluo.Processor.Serve.{Serves, arrivals_of, read_arrival}
use confluo.Prelude.{text_eq}
use confluo.Prelude.Dict.{lookup, insert}
use confluo.Config.{width}
use confluo.Projection.{apply}
use confluo.Keys.{composite_key}
use confluo.Consumer.{get_stream_id}
use confluo.Consumer.Key.{extract_key, key_of}
use confluo.Prelude.{◌+◌}
use confluo.Hex.{encode, decode}
use confluo.Hex.RoundTrip.{decode-encode}
use confluo.World.{World}
use confluo.Consumer.{handle}
use confluo.Consumer.Run.{record_from_kgo, commit_with_retry}
use confluo.Consumer.Run.Commit.{
  commits, commits-commit_with_retry, IsCommitted, commit_with_retry-IsCommitted,
}
use confluo.Timeout.{process_due}
use confluo.Delay.{flush_due}
use confluo.Processor.{single_handler, single_manager, single_queue}
use Lab.{
  join_partial, event, decode_payload, print_values, lab, lab-IsHealthy, lab-IsJson, join_two,
  settings, start, pair_events,
}

start-IsSound : IsSound lab settings start
unfolding row_after
start-IsSound = record { told = λ k s e. ground arith; decodes = λ k. tt }

IsInner-join_two : IsInner settings join_two
unfolding width
IsInner-join_two = record {
  with_redis = refl;
  no_corrections = refl;
  no_delay = refl;
  wide = omega arith;
}

abbrev first : Arrival
first = record { hash = codes "k"; stream = codes "A"; payload = codes "k1"; msg_key = codes "m" }

abbrev second : Arrival
second = record { hash = codes "k"; stream = codes "B"; payload = codes "k2"; msg_key = codes "m" }

pair-arrivals_of : arrivals_of lab.codec join_two pair_events ≡ first ∷ second ∷ []
unfolding arrivals_of read_arrival get_stream_id extract_key key_of composite_key lookup
    decode_payload text_eq
pair-arrivals_of = refl

serve-Serves_example :
    Serves lab settings join_two
      (arrivals_of lab.codec join_two pair_events)
      start
      (serve lab settings join_two pair_events start)
serve-Serves_example =
    serve-Serves lab lab-IsHealthy lab-IsJson settings join_two IsInner-join_two start start-IsSound
      pair_events

serve_joins_example :
    (sent (codes "joined") (serve lab settings join_two pair_events start).history
      ≡ (codes "m", 7 ∷ codes "12.") ∷ [])
    × (table_of (serve lab settings join_two pair_events start) (codes "k") ≡ [])
unfolding row_after sent lookup insert text_eq width gather apply decode_payload print_values
serve_joins_example =
    serve_joins lab lab-IsHealthy lab-IsJson settings join_two IsInner-join_two start start-IsSound
      pair_events (codes "k") first (second ∷ []) pair-arrivals_of (refl, refl, (refl, refl, tt))
      refl

serve_isolated_example :
    table_of (serve lab settings join_two pair_events start) (codes "k")
    ≡ table_after
        (width join_two)
        (table_of start)
        (of_key (codes "k") (arrivals_of lab.codec join_two pair_events))
        (codes "k")
serve_isolated_example =
    serve_isolated lab lab-IsHealthy lab-IsJson settings join_two IsInner-join_two start
      start-IsSound pair_events (codes "k")

-- One event, a turn of the timeout manager and one of the delay queue.
abbrev turned : World
turned =
    (flush_due (single_queue settings join_partial) lab
      (process_due (single_manager settings join_partial) lab
        (handle (single_handler settings join_partial)
          (record_from_kgo (event (codes "A") (codes "k1"))) lab start).1).1).1

commits-commit_with_retry_example :
    commits
      (commit_with_retry (event (codes "A") (codes "k1")) (codes "orders") 3 9 lab start).1.history
    ≤ commits start.history + 3
commits-commit_with_retry_example =
    commits-commit_with_retry (event (codes "A") (codes "k1")) (codes "orders") 3 9 lab start

commit_with_retry-IsCommitted_example :
    IsCommitted
      (event (codes "A") (codes "k1"))
      (commit_with_retry (event (codes "A") (codes "k1")) (codes "orders") 3 9 lab start).1.history
commit_with_retry-IsCommitted_example =
    commit_with_retry-IsCommitted (event (codes "A") (codes "k1")) (codes "orders") 2 9 lab start
      (unfold commit_with_retry in refl)
