-- ===== src/Store/Columns.antt =====
-- The columns of the UPDATE and DELETE statements of internal/store/scylla.go, and those of the tables.
pub mod Fitting
use confluo.Prelude.{
  ℕ, Text, Bool, true, false, ◌&&◌, ◌||◌, not, ◌≡◌, refl, sym, ◌⊎◌, inl, inr, codes, text_eq,
  Option, none, some, List, [], ◌∷◌, arith, if◌then◌else◌,
}
use confluo.Store.Schema.{StoreConfig}
use confluo.World.{
  Statement, update, delete, RowKey, single, scoped, Table, CqlType, blob, varchar, uuid, boolean,
  text_to_blob, text_to_timestamp, Definition, create_table, Event, defined, executed, History,
}

-- The text of an UPDATE or a DELETE: its keyspace and its table, the columns that it assigns, a map at
-- one of its keys, and those that its WHERE clause binds.
pub record Sql : Type 0 where
  pub keyspace : Text
  pub table : Text
  pub set_columns : List (Text × CqlType)
  pub where_columns : List Text

-- The text that `UpsertParticipant` and `UpsertParticipantOnly` give to `Sprintf`, with the keyspace.
abbrev pub upsert_sql : Text → Sql
upsert_sql keyspace = record {
  keyspace = keyspace;
  table = codes "join_state";
  set_columns =
      (codes "join_key_raw", varchar)
      ∷ (codes "config_id", uuid)
      ∷ (codes "participant_data", text_to_blob)
      ∷ (codes "arrival_timestamps", text_to_timestamp)
      ∷ [];
  where_columns = codes "join_key_hash" ∷ [];
}

-- That of `UpsertParticipantV2` and `UpsertParticipantOnlyV2`.
abbrev pub upsert_v2_sql : Text → Sql
upsert_v2_sql keyspace = record {
  keyspace = keyspace;
  table = codes "join_state_v2";
  set_columns =
      (codes "join_key_raw", varchar)
      ∷ (codes "participant_data", text_to_blob)
      ∷ (codes "arrival_timestamps", text_to_timestamp)
      ∷ [];
  where_columns = codes "config_id" ∷ codes "join_key_hash" ∷ [];
}

-- That of `DeleteState`.
abbrev pub delete_sql : Text → Sql
delete_sql keyspace = record {
  keyspace = keyspace;
  table = codes "join_state";
  set_columns = [];
  where_columns = codes "join_key_hash" ∷ [];
}

-- That of `DeleteStateV2`.
abbrev pub delete_v2_sql : Text → Sql
delete_v2_sql keyspace = record {
  keyspace = keyspace;
  table = codes "join_state_v2";
  set_columns = [];
  where_columns = codes "config_id" ∷ codes "join_key_hash" ∷ [];
}

-- The text of a statement of the store that keeps a configuration: `s.cfg.Keyspace` is its keyspace.
abbrev pub sql : StoreConfig → Statement → Sql
sql conf (update (single h) a) = upsert_sql conf.keyspace
sql conf (update (scoped c h) a) = upsert_v2_sql conf.keyspace
sql conf (delete (single h)) = delete_sql conf.keyspace
sql conf (delete (scoped c h)) = delete_v2_sql conf.keyspace

abbrev pub type_eq : CqlType → CqlType → Bool
type_eq blob blob = true
type_eq varchar varchar = true
type_eq uuid uuid = true
type_eq boolean boolean = true
type_eq text_to_blob text_to_blob = true
type_eq text_to_timestamp text_to_timestamp = true
type_eq _ _ = false

unfoldable pub has_column : Text × CqlType → List (Text × CqlType) → Bool
has_column c [] = false
has_column (n, t) ((m, s) ∷ cs) = (text_eq n m && type_eq t s) || has_column (n, t) cs

unfoldable pub has_name : Text → List Text → Bool
has_name n [] = false
has_name n (m ∷ ms) = text_eq n m || has_name n ms

unfoldable pub same_names : List Text → List Text → Bool
same_names [] [] = true
same_names (a ∷ as') (b ∷ bs) = text_eq a b && same_names as' bs
same_names _ _ = false

-- Each column is one of the table's, outside its key.
unfoldable pub all_settable : Table → List (Text × CqlType) → Bool
unfolding has_column has_name
all_settable t [] = true
all_settable t ((n, s) ∷ cs) =
    has_column (n, s) t.columns && not (has_name n t.primary_key) && all_settable t cs

-- What the database accepts: the table is meant, its whole key is bound, and only other columns are
-- assigned, with values of their types.
unfoldable pub fits : Table → Sql → Bool
unfolding same_names all_settable
fits t q =
    text_eq q.table t.name
    && same_names q.where_columns t.primary_key
    && all_settable t q.set_columns

-- A table was created in a keyspace.
abbrev pub IsCreated : Text → Table → History → Type 0
IsCreated k t [] = ⊥
IsCreated k t (defined (create_table j s) none ∷ h) = ((j ≡ k) × (s ≡ t)) ⊎ IsCreated k t h
IsCreated k t (e ∷ h) = IsCreated k t h

-- Every statement of the store with a configuration came after the creation, in its own keyspace, of a
-- table that it fits.
abbrev pub AllFit : StoreConfig → History → Type 0
AllFit conf [] = Unit
AllFit conf (executed s r ∷ h) =
    ((t : Table) × IsCreated (sql conf s).keyspace t h × (fits t (sql conf s) ≡ true))
    × AllFit conf h
AllFit conf (e ∷ h) = AllFit conf h
