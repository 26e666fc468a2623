-- ===== src/Consumer/Run.antt =====
-- `Run` of internal/consumer/consumer.go: polled records are handled and committed in order.
pub mod Acks
pub mod Commit
pub mod Faults
pub mod Keeps
use confluo.Prelude.{
  ℕ, zero, suc, Text, codes, Option, none, some, List, [], ◌∷◌, ◌==◌, is_some, if◌then◌else◌,
}
use confluo.Fault.{int, Error, Result, ok, err, errorf, from_error, ◌>>=◌ as bind_result}
use confluo.World.{
  KafkaRecord, Codec, Go, ◌>>=◌, ◌>>◌, pure, lift, attempt, commit_records, sleep, count,
  commit_errors_total, handle_errors_total,
}
use confluo.Consumer.{Record, Handler, handle, find_header, or_missing, config_id_header}

-- `recordFromKgo`
unfoldable pub record_from_kgo : KafkaRecord → Record
record_from_kgo r = record { topic = r.topic; key = r.key; value = r.value; headers = r.headers }

-- One attempt has failed: the last error is returned, or the next attempt waits for the backoff.
abbrev pub after_failure : ℕ → ℕ → Go (Unit {0}) → Error → Go (Unit {0})
after_failure left backoff again e = if left == 0 then lift (err e) else (sleep backoff >> again)

abbrev pub after_commit : ℕ → ℕ → Text → Go (Unit {0}) → Result (Unit {0}) → Go (Unit {0})
after_commit left backoff name again (ok u) = pure tt
after_commit left backoff name again (err e) =
    count (commit_errors_total name) >> after_failure left backoff again e

-- `commitWithRetry`, by the attempts that are left.
unfoldable pub commit_with_retry : KafkaRecord → Text → ℕ → ℕ → Go (Unit {0})
commit_with_retry rec name zero backoff = pure tt
commit_with_retry rec name (suc left) backoff = do
  r ← attempt (commit_records rec)
  after_commit left backoff name (commit_with_retry rec name left backoff) r

abbrev pub max_attempts : ℕ
max_attempts = 3

-- Two seconds.
abbrev pub commit_backoff : ℕ
commit_backoff = 2000000000

-- `getHandler`
abbrev pub Resolver : Type 0
Resolver = Record → Result Handler

-- `HandlerResolverFromSingle`
unfoldable pub resolver_from_single : Handler → Resolver
resolver_from_single h r = ok h

-- `getConfigID`
unfoldable pub get_config_id : Codec → Record → Result ℕ
unfolding find_header
get_config_id c r =
    bind_result (or_missing config_id_header (find_header config_id_header r.headers)) c.parse_uuid

-- A map by configuration id; `nil` is `none`.
unfoldable pub handler_of : ℕ → List (ℕ × Handler) → Option Handler
handler_of id [] = none
handler_of id ((j, h) ∷ m) = if j == id then some h else handler_of id m

abbrev pub or_unknown : ℕ → Option Handler → Result Handler
or_unknown id none = err (errorf "unknown config_id %s" (int id ∷ []))
or_unknown id (some h) = ok h

-- `HandlerResolverFromMap`
unfoldable pub resolver_from_map : Codec → List (ℕ × Handler) → Resolver
unfolding get_config_id handler_of
resolver_from_map c handlers r =
    bind_result (get_config_id c r) (λ id. or_unknown id (handler_of id handlers))

-- The variable `commitErr`.
abbrev pub commit_error : Result (Unit {0}) → Option Error
commit_error (ok u) = none
commit_error (err e) = some e

-- After a commit: the loop goes on, or is left with the error.
abbrev pub go_on : Result (Unit {0}) → (Option Error → Go (Option Error)) → Go (Option Error)
go_on (ok u) rest = rest none
go_on (err e) rest = pure (some e)

-- A handled record is committed; a failed one is counted, and the loop goes on without a commit.
abbrev pub after_handle :
    Handler
    → KafkaRecord
    → Option Error
    → (Option Error → Go (Option Error))
    → Result (Unit {0})
    → Go (Option Error)
after_handle h rec last rest (ok u) = do
  c ← attempt (commit_with_retry rec h.join_cfg.name max_attempts commit_backoff)
  go_on c rest
after_handle h rec last rest (err e) = count (handle_errors_total h.join_cfg.name) >> rest last

-- A record with no handler is committed, and its partition is left.
abbrev pub with_handler :
    KafkaRecord
    → Option Error
    → (Option Error → Go (Option Error))
    → Result Handler
    → Go (Option Error)
with_handler rec last rest (err e) = do
  c ← attempt (commit_with_retry rec (codes "unknown") max_attempts commit_backoff)
  pure (commit_error c)
with_handler rec last rest (ok h) = do
  r ← attempt (handle h (record_from_kgo rec))
  after_handle h rec last rest r

-- The records of one partition, with `commitErr` so far.
unfoldable pub process_records : Resolver → List KafkaRecord → Option Error → Go (Option Error)
process_records get [] last = pure last
process_records get (rec ∷ rest) last =
    with_handler rec last (process_records get rest) (get (record_from_kgo rec))

-- `fetches.EachPartition(...)`
unfoldable pub process_partitions :
    Resolver → List (List KafkaRecord) → Option Error → Go (Option Error)
process_partitions get [] last = pure last
process_partitions get (p ∷ ps) last = do
  e ← process_records get p last
  process_partitions get ps e

-- What one turn of the loop meets: the context before and after the poll, and the fetches.
pub record Poll : Type 0 where
  pub cancelled_before : Option Error
  pub cancelled_after : Option Error
  pub errors : List (Option Error)
  pub partitions : List (List KafkaRecord)

-- The first error that is not nil.
unfoldable pub first_error : List (Option Error) → Option Error
first_error [] = none
first_error (none ∷ es) = first_error es
first_error (some e ∷ es) = some e

-- One turn of the `for` loop; an error ends it.
unfoldable pub run_once : Resolver → Poll → Go (Unit {0})
unfolding first_error
run_once get p = do
  lift (from_error p.cancelled_before)
  lift (from_error p.cancelled_after)
  lift (from_error (first_error p.errors))
  e ← process_partitions get p.partitions none
  lift (from_error e)

-- `Run`, for the turns that the client gives it.
unfoldable pub run : Resolver → List Poll → Go (Unit {0})
run get [] = pure tt
run get (p ∷ ps) = do run_once get p; run get ps

-- `RunSingle`, for the handler that it makes.
unfoldable pub run_single : Handler → List Poll → Go (Unit {0})
unfolding resolver_from_single
run_single h polls = run (resolver_from_single h) polls
