-- ===== src/Tests/Orders.antt =====
-- The two events of a join, in both orders.
use native.Mathlib.Omega.{arith}
use mathlib.Core.List.Perm
use confluo.Prelude.{Text, codes, text_eq, ◌≡◌, refl, [], ◌∷◌, List}
use confluo.Prelude.Dict.{lookup, insert}
use confluo.Config.{width}
use confluo.Consumer.{get_stream_id}
use confluo.Consumer.Key.{extract_key, key_of}
use confluo.JoinSpec.{Arrival}
use confluo.Keys.{composite_key}
use confluo.World.{KafkaRecord}
use confluo.World.Views.{row_after, sent}
use confluo.Processor.Join.{IsInner, serve}
use confluo.Processor.Reorder.{serve_joins_order}
use confluo.Processor.Serve.{arrivals_of, read_arrival}
use confluo.Processor.Sound.{IsSound}
use confluo.Tests.Lab.{
  lab, lab-IsHealthy, lab-IsJson, decode_payload, start, settings, join_two, event, pair_events,
}

abbrev swapped_events : List KafkaRecord
swapped_events = event (codes "B") (codes "k2") ∷ event (codes "A") (codes "k1") ∷ []

abbrev first : Arrival
first = record { hash = codes "k"; stream = codes "A"; payload = codes "k1"; msg_key = codes "m" }

abbrev second : Arrival
second = record { hash = codes "k"; stream = codes "B"; payload = codes "k2"; msg_key = codes "m" }

pair-arrivals_of : arrivals_of lab.codec join_two pair_events ≡ first ∷ second ∷ []
unfolding arrivals_of read_arrival get_stream_id extract_key key_of composite_key lookup
    decode_payload text_eq
pair-arrivals_of = refl

swapped-arrivals_of : arrivals_of lab.codec join_two swapped_events ≡ second ∷ first ∷ []
unfolding arrivals_of read_arrival get_stream_id extract_key key_of composite_key lookup
    decode_payload text_eq
swapped-arrivals_of = refl

start-IsSound : IsSound lab settings start
unfolding row_after
start-IsSound = record { told = λ k s e. cc e; decodes = λ k. tt }

join_two-IsInner : IsInner settings join_two
unfolding width
join_two-IsInner = record {
  with_redis = refl;
  no_corrections = refl;
  no_delay = refl;
  wide = omega arith;
}

serve_joins_order_example :
    (joined : Text) × (sent (codes "joined") (serve lab settings join_two pair_events start).history
      ≡ (codes "m", joined) ∷ [])
    × (sent (codes "joined") (serve lab settings join_two swapped_events start).history
        ≡ (codes "m", joined) ∷ [])
unfolding row_after sent lookup insert text_eq width
serve_joins_order_example =
    serve_joins_order lab lab-IsHealthy lab-IsJson settings join_two join_two-IsInner start
      start-IsSound pair_events swapped_events (codes "k") first second (second ∷ []) (first ∷ [])
      pair-arrivals_of swapped-arrivals_of (Perm.swap second first [])
      (refl, refl, (refl, refl, tt)) refl
