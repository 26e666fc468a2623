-- ===== src/Store/Schema.antt =====
-- The start of internal/store/scylla.go: sessions, the keyspace and the two tables. That sessions
-- are closed again is left out: what follows does not use them.
use confluo.Prelude.{ℕ, Text, codes, [], ◌∷◌, ◌==◌, List, is_empty, if◌then◌else◌}
use confluo.World.{
  Cluster, Table, blob, varchar, uuid, boolean, text_to_blob, text_to_timestamp, create_keyspace,
  create_table, Go, ◌>>◌, pure, wrap, open_session, define, ping, scylla,
}

-- `Config`
pub record StoreConfig : Type 0 where
  pub hosts : List Text
  pub keyspace : Text
  pub timeout : ℕ

abbrev pub default_keyspace : Text
default_keyspace = codes "omni_joiner"

-- Five seconds.
abbrev pub default_timeout : ℕ
default_timeout = 5000000000

-- The two defaults, set at the start of `New` and of `EnsureKeyspaceAndTable`.
abbrev pub with_defaults : StoreConfig → StoreConfig
with_defaults cfg = record cfg {
  keyspace = if is_empty cfg.keyspace then default_keyspace else cfg.keyspace;
  timeout = if cfg.timeout == 0 then default_timeout else cfg.timeout;
}

abbrev pub cluster_of : StoreConfig → Text → Cluster
cluster_of cfg keyspace = record { hosts = cfg.hosts; keyspace = keyspace; timeout = cfg.timeout }

abbrev pub join_state_table : Table
join_state_table = record {
  name = codes "join_state";
  columns =
      (codes "join_key_hash", blob)
      ∷ (codes "join_key_raw", varchar)
      ∷ (codes "config_id", uuid)
      ∷ (codes "participant_data", text_to_blob)
      ∷ (codes "arrival_timestamps", text_to_timestamp)
      ∷ (codes "is_completed", boolean)
      ∷ [];
  primary_key = codes "join_key_hash" ∷ [];
  time_to_live = 600;
}

abbrev pub join_state_v2_table : Table
join_state_v2_table = record {
  name = codes "join_state_v2";
  columns =
      (codes "config_id", uuid)
      ∷ (codes "join_key_hash", blob)
      ∷ (codes "join_key_raw", varchar)
      ∷ (codes "participant_data", text_to_blob)
      ∷ (codes "arrival_timestamps", text_to_timestamp)
      ∷ (codes "is_completed", boolean)
      ∷ [];
  primary_key = codes "config_id" ∷ codes "join_key_hash" ∷ [];
  time_to_live = 600;
}

-- `EnsureKeyspaceAndTable`
unfoldable pub ensure_keyspace_and_table : StoreConfig → Go (Unit {0})
ensure_keyspace_and_table cfg0 =
    let cfg = with_defaults cfg0 in
    do
      wrap "create system session" (open_session (cluster_of cfg (codes "system")))
      wrap "create keyspace" (define (create_keyspace cfg.keyspace))
      wrap "create app session" (open_session (cluster_of cfg cfg.keyspace))
      wrap "create table" (define (create_table cfg.keyspace join_state_table))
      wrap "create table join_state_v2" (define (create_table cfg.keyspace join_state_v2_table))

-- `New`: the configuration that the store keeps, behind the call that opens its session.
unfoldable pub new_store : StoreConfig → Go StoreConfig
new_store cfg0 =
    let cfg = with_defaults cfg0 in
    wrap "create session" (open_session (cluster_of cfg cfg.keyspace)) >> pure cfg

-- `CreateKeyspaceAndTable`, from the configuration that the store keeps.
unfoldable pub create_keyspace_and_table : StoreConfig → Go (Unit {0})
unfolding ensure_keyspace_and_table
create_keyspace_and_table cfg = ensure_keyspace_and_table cfg

-- `Ping`
unfoldable pub ping_store : Go (Unit {0})
ping_store = wrap "scylla ping" (ping scylla)
