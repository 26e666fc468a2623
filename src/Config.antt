-- ===== src/Config.antt =====
-- internal/config/config.go: the join configuration, its validation, and
-- durations in JSON.
pub mod Validate
pub mod Duration
use confluo.Prelude.{ℕ, Text, Bool, Option, List, length, is_empty, not}
use confluo.Prelude.Int.{ℤ}

-- An `EgressPolicy` is a string; `other` is any string but the two constants.
pub data EgressPolicy : Type 0 where
  inner partial : EgressPolicy
  other : Text → EgressPolicy

pub record KeyDef : Type 0 where
  pub field : Text
  pub fields : List Text

pub record ProjectionField : Type 0 where
  pub output : Text
  pub stream : Text
  pub field : Text

pub record JoinConfig : Type 0 where
  pub config_id : ℕ
  pub name : Text
  pub stream_ids : List Text
  pub key : KeyDef
  pub ttl : ℤ
  pub projection : List ProjectionField
  pub egress : EgressPolicy
  pub post_join_delay : ℤ

-- `JoinConfig.N`: the join width.
unfoldable pub width : JoinConfig → ℕ
width c = length c.stream_ids

-- `ProcessorConfig`; `none` stands for a nil pointer.
pub record ProcessorConfig : Type 0 where
  pub kafka_brokers : List Text
  pub input_topic : Text
  pub egress_topic : Text
  pub config_path : Text
  pub join_config : Option JoinConfig
  pub config_paths : List Text
  pub join_configs : List (Option JoinConfig)
  pub scylla_hosts : List Text
  pub scylla_keyspace : Text
  pub redis_addr : Text
  pub redis_bloom_key : Text
  pub corrections_topic : Text

-- `ProcessorConfig.MultiConfig`
unfoldable pub multi_config : ProcessorConfig → Bool
multi_config c = not (is_empty c.join_configs)
