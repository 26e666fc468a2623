-- ===== src/World/Events.antt =====
-- The calls that leave the process, with their replies, and the parameters that answer them.
use confluo.Prelude.{ℕ, Text, Bool, List, Option}
use confluo.Prelude.Dict.{Dict}
use confluo.Prelude.Int.{ℤ}
use confluo.Fault.{Error, Result}
use confluo.Json.{Object}
use confluo.Correction.{CorrectionEvent}

-- The primary key of `join_state` and that of `join_state_v2`.
pub data RowKey : Type 0 where
  single : Text → RowKey
  scoped : ℕ → Text → RowKey

-- The assignments of the UPDATE statements. Only `join_state` has `config_id` among them.
pub record Assignments : Type 0 where
  pub join_key_raw : Text
  pub config_id : Option ℕ
  pub stream : Text
  pub payload : Text
  pub arrival : ℕ

pub data Statement : Type 0 where
  update : RowKey → Assignments → Statement
  delete : RowKey → Statement

-- A row as it is scanned; an empty CQL map may come back as a nil map.
pub record Row : Type 0 where
  pub join_key_hash : Text
  pub join_key_raw : Text
  pub config_id : ℕ
  pub participant_data : Option (Dict Text)
  pub arrival_timestamps : Option (Dict ℕ)
  pub is_completed : Bool

pub data ScanReply : Type 0 where
  found : Row → ScanReply
  not_found : ScanReply
  failed : Error → ScanReply

-- `gocql.ClusterConfig`, as far as the program sets it per cluster.
pub record Cluster : Type 0 where
  pub hosts : List Text
  pub keyspace : Text
  pub timeout : ℕ

-- A CQL type, a column, and the tables that `CREATE TABLE IF NOT EXISTS` makes in a keyspace.
pub data CqlType : Type 0 where
  blob varchar uuid boolean text_to_blob text_to_timestamp : CqlType

pub record Table : Type 0 where
  pub name : Text
  pub columns : List (Text × CqlType)
  pub primary_key : List Text
  pub time_to_live : ℕ

pub data Definition : Type 0 where
  create_keyspace : Text → Definition
  create_table : Text → Table → Definition

-- What is asked whether it is there.
pub data Dependency : Type 0 where
  scylla kafka redis : Dependency

-- Redis commands of which the program reads only the error.
pub data Command : Type 0 where
  bf_add : Text → Text → Command
  bf_reserve : Text → ℕ → ℕ → Command
  zadd : Text → ℕ → Text → Command
  zrem : Text → Text → Command
  sadd : Text → Text → Command
  srem : Text → Text → Command

-- Redis commands that answer yes or no.
pub data Query : Type 0 where
  bf_exists : Text → Text → Query
  sismember : Text → Text → Query

-- A record as franz-go hands it over.
pub record KafkaRecord : Type 0 where
  pub topic : Text
  pub partition : ℕ
  pub offset : ℕ
  pub key : Text
  pub value : Option Text
  pub headers : List (Text × Text)

-- One call and its reply. `opened` is a new session of ScyllaDB, `joined` a new client
-- of Kafka with its brokers, its group and its topic. A ZRANGEBYSCORE has a key, a greatest score and a count.
pub data Event : Type 0 where
  clock_read : ℕ → Event
  executed : Statement → Option Error → Event
  scanned : RowKey → ScanReply → Event
  commanded : Command → Option Error → Event
  queried : Query → Result Bool → Event
  ranged : Text → ℕ → ℕ → Result (List Text) → Event
  produced : Text → Text → Text → Option Error → Event
  committed : KafkaRecord → Option Error → Event
  slept : ℕ → Option Error → Event
  context_checked : Option Error → Event
  opened : Cluster → Option Error → Event
  defined : Definition → Option Error → Event
  joined : List Text → Text → Text → Option Error → Event
  pinged : Dependency → Option Error → Event

-- Newest first.
abbrev pub History : Type 0
History = List Event

-- `delayedItem` of internal/delay/queue.go: the fields of the JSON text of a pending item.
pub record DelayedItem : Type 0 where
  pub h : Text
  pub j : Text
  pub k : Text

-- The codecs. `marshal` is `json.Marshal` on a map, `unmarshal` is `json.Unmarshal` into a nil
-- map, which stays nil at the text `null`; `sha256` is `crypto/sha256.Sum256`,
-- `error_text` the `Error()` of an error.
pub record Codec : Type 0 where
  pub unmarshal : Text → Result (Option Object)
  pub marshal : Object → Result Text
  pub marshal_correction : CorrectionEvent → Result Text
  pub marshal_item : DelayedItem → Result Text
  pub unmarshal_item : Text → Result DelayedItem
  pub sha256 : Text → Text
  pub parse_uuid : Text → Result ℕ
  pub uuid_string : ℕ → Text
  pub error_text : Error → Text

-- Each field is a reply, after a history. `now` is nanoseconds since the epoch; `sleep` waits for
-- a duration, and has an error if the context is cancelled first; `cancelled` is `ctx.Err()`.
pub record Services : Type 0 where
  pub codec : Codec
  pub now : History → ℕ
  pub exec : History → Statement → Option Error
  pub scan : History → RowKey → ScanReply
  pub command : History → Command → Option Error
  pub query : History → Query → Result Bool
  pub range : History → Text → ℕ → ℕ → Result (List Text)
  pub produce : History → Text → Text → Text → Option Error
  pub commit : History → KafkaRecord → Option Error
  pub sleep : History → ℕ → Option Error
  pub cancelled : History → Option Error
  pub open_session : History → Cluster → Option Error
  pub define : History → Definition → Option Error
  pub new_client : History → List Text → Text → Text → Option Error
  pub ping : History → Dependency → Option Error

-- internal/metrics/metrics.go: an increment or an observation, with its labels. Durations are
-- nanoseconds.
pub data Metric : Type 0 where
  events_processed_total : Text → Text → Metric
  join_success_total : Text → Metric
  join_latency : Text → ℤ → Metric
  state_age : Text → ℤ → Metric
  handle_errors_total : Text → Metric
  commit_errors_total : Text → Metric
  egress_failures_total : Text → Text → Metric

-- `pending` of internal/delay/queue.go.
pub record Pending : Type 0 where
  pub join_key_hash : Text
  pub joined_bytes : Text
  pub msg_key : Text
  pub publish_at : ℕ

-- The calls made so far, the metrics and the memory of the delay queues, by their identity.
pub record World : Type 0 where
  pub history : History
  pub metrics : List Metric
  pub pending : ℕ → List Pending
