-- ===== src/Consumer.antt =====
-- internal/consumer/consumer.go: the handler of one consumed record.
mod Parts
pub mod Key
pub mod Run
pub mod Keeps
pub mod Deletes
use confluo.Prelude.{
  ℕ, ◌+◌, Text, Bool, true, false, ◌&&◌, not, Option, none, some, List, [], ◌∷◌, length, is_some,
  is_empty, codes, ltb, text_eq, if◌then◌else◌,
}
use confluo.Prelude.Int.{is_pos, to_nat, sub_ℕ}
use confluo.Prelude.Dict.{Dict}
use confluo.Fault.{Error, Result, ok, err, errorf}
use confluo.Config.{JoinConfig, width}
use confluo.Correction.{CorrectionEvent, late}
use confluo.Projection
use confluo.Engine.{JoinState, ProcessResult, process}
use confluo.Store.{StateStore}
use confluo.Redis.{BloomChecker, PartialTracker}
use confluo.World.{
  Codec, Services, Go, ◌>>=◌, ◌>>◌, pure, lift, asks, wrap, wrap_with, attempt, best_effort, when,
  time_now, produce, count, events_processed_total, egress_failures_total, join_success_total,
  join_latency, state_age,
}
use confluo.Keys.{JoinKey}
use Key.{extract_key}
unfoldable pub use Parts.*

abbrev pub stream_id_header : Text
stream_id_header = codes "x-stream-id"

abbrev pub config_id_header : Text
config_id_header = codes "x-config-id"

-- The value of the first header with a name: the loops of `getStreamID` and `getConfigID`.
unfoldable pub find_header : Text → List (Text × Text) → Option Text
find_header name [] = none
find_header name ((k, v) ∷ rest) = if text_eq k name then some v else find_header name rest

abbrev pub or_missing : Text → Option Text → Result Text
or_missing name none = err (errorf "missing header %q" (confluo.Fault.text name ∷ []))
or_missing name (some v) = ok v

-- `getStreamID`
unfoldable pub get_stream_id : Record → Result Text
unfolding find_header
get_stream_id r = or_missing stream_id_header (find_header stream_id_header r.headers)

-- `publishTo`: nothing is sent where there is no producer.
unfoldable pub publish_to : Option Producer → Text → Text → Text → Go (Unit {0})
publish_to none topic value key = pure tt
publish_to (some p) topic value key = p.produce_sync topic key value

-- `if h.bloom != nil { exists, err := h.bloom.Exists(...) }`; without a filter every key counts
-- as seen.
unfoldable pub maybe_seen : Option BloomChecker → Text → Go Bool
maybe_seen none hash = pure true
maybe_seen (some b) hash = wrap "bloom exists" (b.exists hash)

unfoldable pub remember : Option BloomChecker → Text → Go (Unit {0})
remember none hash = pure tt
remember (some b) hash = wrap "bloom add" (b.add hash)

-- The deadline of a new key, if the configuration has a TTL; an error is dropped.
unfoldable pub start_timeout : Handler → Option TimeoutScheduler → Text → Go (Unit {0})
start_timeout h none hash = pure tt
start_timeout h (some t) hash =
    when (is_pos h.join_cfg.ttl)
      (do now ← time_now; best_effort (t.schedule_timeout hash (now + to_nat h.join_cfg.ttl)))

-- The branch of `Handle` for a key that the filter has not seen.
unfoldable pub first_arrival : Handler → JoinKey → Text → Text → Go (Unit {0})
first_arrival h key stream payload = do
  wrap "upsert participant only"
      (h.store.upsert_only key.hash key.raw h.join_cfg.config_id stream payload)
  remember h.bloom key.hash
  start_timeout h h.timeout_sched key.hash

abbrev pub ignore_error : Result Bool → Bool
ignore_error (ok b) = b
ignore_error (err e) = false

-- `ok, _ := h.lateTracker.Contains(...)`
unfoldable pub was_partial : Option LateArrivalTracker → Text → Go Bool
was_partial none hash = pure false
was_partial (some t) hash = do r ← attempt (t.contains hash); pure (ignore_error r)

-- The test for a late arrival: an incomplete state, of a key that had a partial egress.
unfoldable pub is_late : Handler → Option JoinState → Text → Go Bool
unfolding was_partial width
is_late h none hash = pure false
is_late h (some s) hash =
    if ltb (length s.participant_data) (width h.join_cfg) && not (is_empty h.corrections_topic)
    then was_partial h.late_tracker hash
    else pure false

unfoldable pub forget_partial : Option LateArrivalTracker → Text → Go (Unit {0})
forget_partial none hash = pure tt
forget_partial (some t) hash = t.remove hash

-- A failed publication of a correction is counted, and no error.
abbrev pub note_failure : Handler → Text → Result (Unit {0}) → Go (Unit {0})
note_failure h phase (ok u) = pure tt
note_failure h phase (err e) = count (egress_failures_total h.join_cfg.name phase)

-- The late-arrival branch.
unfoldable pub correct_late : Handler → JoinState → Text → Go (Unit {0})
correct_late h s hash = do
  partial ← asks (λ env. Projection.apply env.codec s.participant_data h.join_cfg.projection)
  now ← time_now
  corr ← wrap "marshal correction event" (
      asks (λ env.
        env.codec.marshal_correction
          (record { kind = late; join_key = s.join_key_raw; timestamp = now; payload = partial })))
  sent ← attempt (publish_to h.producer h.corrections_topic corr hash)
  note_failure h (codes "correction") sent
  best_effort (forget_partial h.late_tracker hash)
  best_effort (h.store.remove hash)

-- The loop that finds the oldest arrival.
unfoldable pub oldest_arrival : Option ℕ → Dict ℕ → Option ℕ
oldest_arrival best [] = best
oldest_arrival none ((s, t) ∷ rest) = oldest_arrival (some t) rest
oldest_arrival (some b) ((s, t) ∷ rest) = oldest_arrival (some (if ltb t b then t else b)) rest

unfoldable pub observe_age : Handler → Option ℕ → Go (Unit {0})
observe_age h none = pure tt
observe_age h (some t) = do now ← time_now; count (state_age h.join_cfg.name (sub_ℕ now t))

abbrev pub arrivals : Option JoinState → Dict ℕ
arrivals none = []
arrivals (some s) = s.arrival_timestamps

-- The metrics of a published join.
unfoldable pub observe_join : Handler → Option JoinState → ℕ → Go (Unit {0})
unfolding oldest_arrival observe_age
observe_join h state start = do
  count (join_success_total h.join_cfg.name)
  now ← time_now
  count (join_latency h.join_cfg.name (sub_ℕ now start))
  observe_age h (oldest_arrival none (arrivals state))

-- An error of the main publication is counted and returned.
abbrev pub or_fail : Handler → Result (Unit {0}) → Go (Unit {0})
or_fail h (ok u) = pure tt
or_fail h (err e) = count (egress_failures_total h.join_cfg.name (codes "main")) >> lift (err e)

-- Publish now and delete the state.
unfoldable pub publish_now : Handler → Option JoinState → Text → Text → Text → ℕ → Go (Unit {0})
publish_now h state hash joined key start = do
  sent ← attempt (publish_to h.producer h.egress_topic joined key)
  or_fail h sent
  observe_join h state start
  wrap "delete state after egress" (h.store.remove hash)

-- `if h.delayQueue != nil && delay > 0`: publish later, or now.
unfoldable pub publish_or_delay :
    Handler → Option DelayPublisher → Option JoinState → Text → Text → Text → ℕ → Go (Unit {0})
publish_or_delay h none state hash joined key start = publish_now h state hash joined key start
publish_or_delay h (some q) state hash joined key start =
    if is_pos h.join_cfg.post_join_delay
    then (do now ← time_now; q.schedule hash joined key (now + to_nat h.join_cfg.post_join_delay))
    else publish_now h state hash joined key start

-- `if len(res.JoinedBytes) > 0`
unfoldable pub finish : Handler → Option JoinState → Text → Option Text → Text → ℕ → Go (Unit {0})
finish h state hash none key start = pure tt
finish h state hash (some joined) key start =
    if is_empty joined
    then pure tt
    else publish_or_delay h h.delay_queue state hash joined key start

-- The end of `Handle`: the completion check and the egress.
unfoldable pub complete : Handler → Option JoinState → Text → Text → Go (Unit {0})
complete h state hash key = do
  start ← time_now
  res ← asks (λ env. process env.codec h.join_cfg state)
  finish h state hash res.joined_bytes key start

abbrev pub or_complete : Handler → Bool → Option JoinState → Text → Text → Go (Unit {0})
or_complete h true (some s) hash key = correct_late h s hash
or_complete h true none hash key = complete h none hash key
or_complete h false state hash key = complete h state hash key

-- The branch of `Handle` for a key that may have been seen.
unfoldable pub next_arrival : Handler → JoinKey → Text → Text → Text → Go (Unit {0})
next_arrival h key stream payload msg_key = do
  state ←
      wrap "upsert participant"
        (h.store.upsert key.hash key.raw h.join_cfg.config_id stream payload)
  is_correction ← is_late h state key.hash
  or_complete h is_correction state key.hash msg_key

-- `payload := rec.Value; if payload == nil { payload = []byte("{}") }`
abbrev pub payload_of : Option Text → Text
payload_of none = codes "{}"
payload_of (some v) = v

-- `Handle`
unfoldable pub handle : Handler → Record → Go (Unit {0})
handle h r = do
  stream ← lift (get_stream_id r)
  key ← asks (λ env. extract_key env.codec h.join_cfg.key r.value)
  count (events_processed_total h.join_cfg.name stream)
  seen ← maybe_seen h.bloom key.hash
  if seen
      then next_arrival h key stream (payload_of r.value) r.key
      else first_arrival h key stream (payload_of r.value)
