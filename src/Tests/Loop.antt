-- ===== src/Tests/Loop.antt =====
-- The consumer loop on records that cannot be routed, handled or committed.
use confluo.Prelude.{◌==◌, if◌then◌else◌, codes, text_eq, ◌≡◌, refl, none, some, [], ◌∷◌}
use confluo.Prelude.Dict.{lookup}
use confluo.Fault.{ok, errorf, external, text}
use confluo.World.{KafkaRecord, Services, World, handle_errors_total}
use confluo.World.Views.{has_item}
use confluo.Store.{single_store, upsert_participant_only}
use confluo.Redis.{bloom_filter, bloom_exists, bloom_add}
use confluo.Timeout.{scheduler, schedule_timeout, new}
use confluo.Keys.{composite_key}
use confluo.Hex.{encode}
use confluo.Consumer.{
  Handler, handle, find_header, get_stream_id, maybe_seen, first_arrival, remember, start_timeout,
  config_id_header, stream_id_header,
}
use confluo.Consumer.Key.{extract_key, key_of}
use confluo.Consumer.Run.{
  Resolver, process_records, process_partitions, run_once, resolver_from_map, resolver_from_single,
  record_from_kgo, get_config_id, commit_with_retry, max_attempts, commit_backoff,
}
use confluo.Consumer.Run.Faults.{
  process_records_cut, process_records_passes, run_once_forgets, fetched, Failing, one_more,
  none_left,
}
use confluo.Consumer.Run.Acks.{acked}
use confluo.Processor.Commits.{to_single-Quiet}
use confluo.Processor.{single_handler, single_manager}
use confluo.Tests.Lab.{lab, start, settings, join_two, event, decode_payload, answer}

-- A broker that refuses the commits of partition 0.
abbrev refusing : Services
refusing = record lab { commit = λ h r. if r.partition == 0 then some (external 3) else none }

abbrev unlabelled : KafkaRecord
unlabelled = record (event (codes "A") (codes "k1")) { headers = [] }

abbrev elsewhere : KafkaRecord
elsewhere = record (event (codes "B") (codes "k2")) { partition = 1 }

abbrev join_handler : Handler
join_handler = single_handler settings join_two

abbrev multi_resolver : Resolver
multi_resolver = resolver_from_map lab.codec ((1, join_handler) ∷ [])

abbrev single_resolver : Resolver
single_resolver = resolver_from_single join_handler

process_records_cut_example :
    process_records multi_resolver (unlabelled ∷ elsewhere ∷ []) none lab start
    ≡ process_records multi_resolver (unlabelled ∷ []) none lab start
unfolding record_from_kgo
process_records_cut_example =
    process_records_cut multi_resolver unlabelled
      (errorf "missing header %q" (text config_id_header ∷ []))
      (unfold resolver_from_map get_config_id find_header in refl) [] (elsewhere ∷ []) none lab
      start

-- The world after the failure of `unlabelled`.
abbrev counted : World
counted = record start { metrics = handle_errors_total (codes "orders") ∷ [] }

abbrev handled : World → World
handled w = (handle join_handler (record_from_kgo elsewhere) lab w).1

handled-ok : handle join_handler (record_from_kgo elsewhere) lab counted ≡ (ok tt, handled counted)
unfolding handle get_stream_id find_header extract_key key_of lookup decode_payload composite_key
    maybe_seen bloom_filter bloom_exists answer has_item first_arrival single_handler single_store
    upsert_participant_only remember bloom_add start_timeout scheduler schedule_timeout new
    single_manager text_eq record_from_kgo
handled-ok = refl

abbrev committed_after : Services → World → World
committed_after env w =
    (commit_with_retry elsewhere (codes "orders") max_attempts commit_backoff env w).1

unlabelled-Failing : Failing single_resolver lab (unlabelled ∷ []) start counted
unfolding resolver_from_single handle get_stream_id find_header record_from_kgo single_handler
unlabelled-Failing =
    one_more {h = join_handler} {e = errorf "missing header %q" (text stream_id_header ∷ [])} refl
      refl none_left

process_records_passes_example :
    (process_records single_resolver (unlabelled ∷ elsewhere ∷ []) none lab start
      ≡ process_records single_resolver [] none lab (committed_after lab (handled counted)))
    × (acked (committed_after lab (handled counted)).history ≡ elsewhere ∷ acked start.history)
process_records_passes_example =
    process_records_passes single_resolver lab (unlabelled ∷ []) elsewhere join_handler [] none
      start counted (handled counted) (committed_after lab (handled counted))
      (to_single-Quiet lab.codec settings lab join_two) unlabelled-Failing
      (unfold resolver_from_single in refl) handled-ok (unfold commit_with_retry in refl)

abbrev refused : KafkaRecord
refused = event (codes "A") (codes "k1")

-- The world after the turn of partition 0, whose commit is refused three times.
abbrev stopped : World
stopped = (process_records single_resolver (refused ∷ []) none refusing start).1

abbrev other_key : KafkaRecord
other_key = record elsewhere { value = some (codes "q2") }

abbrev after_other : World
after_other = (handle join_handler (record_from_kgo other_key) refusing stopped).1

stopped-err :
    process_partitions single_resolver ((refused ∷ []) ∷ []) none refusing start
    ≡ (ok (some (external 3)), stopped)
unfolding process_partitions process_records resolver_from_single commit_with_retry handle
    get_stream_id find_header extract_key key_of lookup decode_payload composite_key maybe_seen
    bloom_filter bloom_exists answer has_item first_arrival single_handler single_store
    upsert_participant_only remember bloom_add start_timeout scheduler schedule_timeout new
    single_manager text_eq record_from_kgo
stopped-err = refl

other_key-ok :
    handle join_handler (record_from_kgo other_key) refusing stopped ≡ (ok tt, after_other)
unfolding process_records resolver_from_single commit_with_retry handle get_stream_id find_header
    extract_key key_of lookup decode_payload composite_key maybe_seen bloom_filter bloom_exists
    answer has_item first_arrival single_handler single_store upsert_participant_only remember
    bloom_add start_timeout scheduler schedule_timeout new single_manager text_eq record_from_kgo
    encode
other_key-ok = refl

run_once_forgets_example :
    run_once single_resolver (fetched ((refused ∷ []) ∷ (other_key ∷ []) ∷ [])) refusing start
    ≡ run_once single_resolver (fetched ((other_key ∷ []) ∷ [])) refusing stopped
run_once_forgets_example =
    run_once_forgets single_resolver refusing ((refused ∷ []) ∷ []) other_key join_handler []
      (some (external 3)) start stopped after_other stopped-err
      (unfold resolver_from_single in refl) other_key-ok
