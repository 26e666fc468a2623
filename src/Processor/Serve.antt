-- ===== src/Processor/Serve.antt =====
-- A partition of records in a healthy system is a run of the join.
use mathlib.Core.Path.{fun_ext}
use confluo.Prelude.{
  Text, ◌≡◌, refl, Option, none, some, List, [], ◌∷◌, ◌≤◌, arith, inl, inr, Option-cases,
}
use confluo.Fault.{Error, Result, ok, err, Result-cases}
use confluo.Config.{ProcessorConfig, JoinConfig, width}
use confluo.Keys.{JoinKey}
use confluo.JoinSpec.{Arrival, next}
use confluo.JoinSpec.Rounds.{table_after, sent_after}
use confluo.Consumer.{Record, handle, get_stream_id, payload_of}
use confluo.Consumer.Key.{extract_key}
use confluo.Consumer.Run.{
  process_records, resolver_from_single, record_from_kgo, commit_with_retry, max_attempts,
  commit_backoff,
}
use confluo.World.{Codec, Services, World, KafkaRecord, Metric, handle_errors_total, committed}
use confluo.World.Views.{IsHealthy, IsJson, row_after, has_item, sent}
use confluo.Processor.Healthy.{plain_handler}
use confluo.Processor.Refinement.{handle-Succeeds}
use confluo.Processor.Steps.{Joins, joined_text, arrival_of}
use confluo.Processor.Sound.{IsSound, table_of}

abbrev pub with_key : Record → Result Text → Result JoinKey → Option Arrival
with_key r (ok stream) (ok key) = some (arrival_of key stream (payload_of r.value) r.key)
with_key r _ _ = none

-- The event that a record carries: a stream in its headers and a key in its payload.
unfoldable pub read_arrival : Codec → JoinConfig → KafkaRecord → Option Arrival
unfolding record_from_kgo
read_arrival c jc rec =
    let r = record_from_kgo rec in with_key r (get_stream_id r) (extract_key c jc.key r.value)

abbrev pub cons_some : Option Arrival → List Arrival → List Arrival
cons_some none as' = as'
cons_some (some a) as' = a ∷ as'

-- The events of a list of records; a record that carries none is passed over.
unfoldable pub arrivals_of : Codec → JoinConfig → List KafkaRecord → List Arrival
arrivals_of c jc [] = []
arrivals_of c jc (rec ∷ rest) = cons_some (read_arrival c jc rec) (arrivals_of c jc rest)

-- A run of the join over the events of some records.
pub record Serves (env : Services) (cfg : ProcessorConfig) (jc : JoinConfig) (events : List Arrival)
    (w w' : World) : Type 0 where
  pub table : (k : Text) → table_of w' k ≡ table_after (width jc) (table_of w) events k
  pub messages :
      sent cfg.egress_topic w'.history
      ≡ sent_after
          (joined_text env jc)
          (width jc)
          (table_of w)
          events
          (sent cfg.egress_topic w.history)
  pub kept : IsSound env cfg w'

module _ (env : Services) (sound : IsHealthy env) (json : IsJson env.codec) (cfg : ProcessorConfig)
    (jc : JoinConfig) (wide : 2 ≤ width jc) where
  -- Nothing has changed but the metrics.
  handle-unreadable :
      (w : World) (rec : KafkaRecord)
      → read_arrival env.codec jc rec ≡ none
      → (e : Error) × (handle (plain_handler cfg jc) (record_from_kgo rec) env w ≡ (err e, w))
  unfolding handle read_arrival
  handle-unreadable w rec h = elim (Result-cases (get_stream_id (record_from_kgo rec))) [
    | inr (e, p) ↦ (e, ground (arith, p))
    | inl (stream, p) ↦ elim (Result-cases (extract_key env.codec jc.key rec.value)) [
      | inr (e, q) ↦ (e, ground (arith, p, q))
      | inl (key, q) ↦ absurd (unfold record_from_kgo in ground (arith, p, q))
    ]
  ]

  readable :
      (rec : KafkaRecord) (a : Arrival)
      → read_arrival env.codec jc rec ≡ some a
      → (stream : Text) × (key : JoinKey) × (get_stream_id (record_from_kgo rec) ≡ ok stream)
        × (extract_key env.codec jc.key rec.value ≡ ok key)
        × (a ≡ arrival_of key stream (payload_of rec.value) rec.key)
  unfolding read_arrival record_from_kgo
  readable rec a h = elim (Result-cases (get_stream_id (record_from_kgo rec))) [
    | inr (e, p) ↦ absurd (ground (arith, p))
    | inl (stream, p) ↦ elim (Result-cases (extract_key env.codec jc.key rec.value)) [
      | inr (e, q) ↦ absurd (ground (arith, p, q))
      | inl (key, q) ↦ (stream, key, p, q, ground (arith, p, q))
    ]
  ]

  metrics-IsSound :
      (w : World) (ms : List Metric)
      → IsSound env cfg w
      → IsSound env cfg (record w { metrics = ms })
  metrics-IsSound w ms v = record { told = v.told; decodes = v.decodes }

  commit_lem :
      (w : World) (rec : KafkaRecord)
      → commit_with_retry rec jc.name max_attempts commit_backoff env w
        ≡ (ok tt, record w { history = committed rec none ∷ w.history })
  unfolding commit_with_retry
  commit_lem w rec = rw (sound.commit_ok w.history rec)

  committed-IsSound :
      (w : World) (rec : KafkaRecord)
      → IsSound env cfg w
      → IsSound env cfg (record w { history = committed rec none ∷ w.history })
  unfolding row_after has_item
  committed-IsSound w rec v = record { told = v.told; decodes = v.decodes }

  handled :
      (w : World)
      → IsSound env cfg w
      → (rec : KafkaRecord) (a : Arrival) → read_arrival env.codec jc rec ≡ some a
      → (w1 : World) × (handle (plain_handler cfg jc) (record_from_kgo rec) env w ≡ (ok tt, w1))
        × Joins env cfg jc a w w1
  unfolding record_from_kgo
  handled w v rec a h =
      let (stream, key, p, q, e) = readable rec a h in
      let r = record_from_kgo rec in
      let s = handle-Succeeds env sound json cfg jc wide w v r stream key p q in
      (
        (handle (plain_handler cfg jc) r env w).1,
        (λ i. (s.0 i, (handle (plain_handler cfg jc) r env w).1)),
        rw e s.1,
      )

  Serves-next :
      (w w1 w2 : World) (a : Arrival) (rec : KafkaRecord) (rest : List Arrival)
      → Joins env cfg jc a w w1
      → Serves env cfg jc rest (record w1 { history = committed rec none ∷ w1.history }) w2
      → Serves env cfg jc (a ∷ rest) w w2
  unfolding row_after sent table_after sent_after
  Serves-next w w1 w2 a rec rest j s =
      let e : table_of w1 ≡ next (width jc) (table_of w) a = fun_ext j.table in
      record {
        table = λ k. rw (← e) (s.table k);
        messages = rw (← e, ← j.messages) s.messages;
        kept = s.kept;
      }

  -- One partition, with one handler for all its records.
  pub process_records-Serves :
      (w : World) (recs : List KafkaRecord)
      → IsSound env cfg w
      → let (r, w') =
          process_records (resolver_from_single (plain_handler cfg jc)) recs none env w in
        (r ≡ ok none) × Serves env cfg jc (arrivals_of env.codec jc recs) w w'
  unfolding process_records resolver_from_single arrivals_of table_after sent_after
  process_records-Serves w [] v = (refl, record { table = λ k. refl; messages = refl; kept = v })
  process_records-Serves w (rec ∷ rest) v = elim (Option-cases (read_arrival env.codec jc rec)) [
    | inl skipped ↦
        let (e, p) = handle-unreadable w rec skipped in
        let wm : World = record w { metrics = handle_errors_total jc.name ∷ w.metrics } in
        let (r, s) = process_records-Serves wm rest (metrics-IsSound w _ v) in
        rw (p, skipped) (r, record { table = s.table; messages = s.messages; kept = s.kept })
    | inr (a, e) ↦
        let (w1, p, j) = handled w v rec a e in
        let w2 : World = record w1 { history = committed rec none ∷ w1.history } in
        let (r, s) = process_records-Serves w2 rest (committed-IsSound w1 rec j.kept) in
        rw (p, commit_lem w1 rec, e) (r, Serves-next w w1 _ a rec _ j s)
  ]
