-- ===== src/Store.antt =====
-- internal/store/scylla.go: the join state in ScyllaDB, one table for a single configuration and
-- one, scoped by the configuration's id, for several. The keyspace of the statements is left out:
-- a process has one session in one keyspace.
pub mod Refinement
pub mod Keeps
pub mod Schema
pub mod Columns
use confluo.Prelude.{ℕ, Text, Option, none, some, []}
use confluo.Prelude.Dict.{Dict}
use confluo.Fault.{Result, ok, err, wrapf}
use confluo.Engine.{JoinState}
use confluo.World.{
  RowKey, single, scoped, Assignments, update, delete, Row, ScanReply, found, not_found, failed, Go,
  ◌>>=◌, ◌>>◌, pure, lift, wrap, time_now, exec, scan,
}

abbrev pub or_empty {ℓ} : {V : Type ℓ} → Option (Dict V) → Dict V
or_empty none = []
or_empty (some m) = m

-- What `GetState` makes of a row: nil maps become empty ones.
abbrev pub state_of : Row → JoinState
state_of r = record {
  join_key_hash = r.join_key_hash;
  join_key_raw = r.join_key_raw;
  config_id = r.config_id;
  participant_data = or_empty r.participant_data;
  arrival_timestamps = or_empty r.arrival_timestamps;
  is_completed = r.is_completed;
}

abbrev pub read_reply : ScanReply → Result (Option JoinState)
read_reply (found r) = ok (some (state_of r))
read_reply not_found = ok none
read_reply (failed e) = err (wrapf "get state" [] e)

-- `GetState`: the row's own configuration id.
unfoldable pub get_state : Text → Go (Option JoinState)
get_state hash = do reply ← scan (single hash); lift (read_reply reply)

-- `UpsertParticipantOnly`
unfoldable pub upsert_participant_only : Text → Text → ℕ → Text → Text → Go (Unit {0})
upsert_participant_only hash raw config_id stream payload = do
  now ← time_now
  exec (
      update (single hash) (record {
        join_key_raw = raw;
        config_id = some config_id;
        stream = stream;
        payload = payload;
        arrival = now;
      }))

-- `UpsertParticipant`: the same statement, then the row is read back.
unfoldable pub upsert_participant : Text → Text → ℕ → Text → Text → Go (Option JoinState)
upsert_participant hash raw config_id stream payload = do
  wrap "upsert participant" (upsert_participant_only hash raw config_id stream payload)
  get_state hash

-- `DeleteState`
unfoldable pub delete_state : Text → Go (Unit {0})
delete_state hash = exec (delete (single hash))

-- `GetStateV2` has the id that it was asked for, not the row's.
abbrev pub read_reply_v2 : ℕ → ScanReply → Result (Option JoinState)
read_reply_v2 config_id (found r) = ok (some (record (state_of r) { config_id = config_id }))
read_reply_v2 config_id not_found = ok none
read_reply_v2 config_id (failed e) = err (wrapf "get state v2" [] e)

unfoldable pub get_state_v2 : ℕ → Text → Go (Option JoinState)
get_state_v2 config_id hash = do
  reply ← scan (scoped config_id hash)
  lift (read_reply_v2 config_id reply)

unfoldable pub upsert_participant_only_v2 : Text → Text → ℕ → Text → Text → Go (Unit {0})
upsert_participant_only_v2 hash raw config_id stream payload = do
  now ← time_now
  exec (
      update (scoped config_id hash) (record {
        join_key_raw = raw;
        config_id = none;
        stream = stream;
        payload = payload;
        arrival = now;
      }))

unfoldable pub upsert_participant_v2 : Text → Text → ℕ → Text → Text → Go (Option JoinState)
upsert_participant_v2 hash raw config_id stream payload = do
  wrap "upsert participant v2" (upsert_participant_only_v2 hash raw config_id stream payload)
  get_state_v2 config_id hash

unfoldable pub delete_state_v2 : ℕ → Text → Go (Unit {0})
delete_state_v2 config_id hash = exec (delete (scoped config_id hash))

-- The interface `StateStore`.
pub record StateStore : Type 0 where
  pub get : Text → Go (Option JoinState)
  pub upsert : Text → Text → ℕ → Text → Text → Go (Option JoinState)
  pub upsert_only : Text → Text → ℕ → Text → Text → Go (Unit {0})
  pub remove : Text → Go (Unit {0})

-- `*Store` as a `StateStore`.
unfoldable pub single_store : StateStore
single_store = record {
  get = get_state;
  upsert = upsert_participant;
  upsert_only = upsert_participant_only;
  remove = delete_state;
}

-- `*ScopedStore`: the id that it holds replaces the caller's.
unfoldable pub scoped_store : ℕ → StateStore
scoped_store config_id = record {
  get = λ hash. get_state_v2 config_id hash;
  upsert = λ hash raw c stream payload. upsert_participant_v2 hash raw config_id stream payload;
  upsert_only =
      λ hash raw c stream payload. upsert_participant_only_v2 hash raw config_id stream payload;
  remove = λ hash. delete_state_v2 config_id hash;
}
