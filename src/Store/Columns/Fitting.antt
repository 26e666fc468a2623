-- ===== src/Store/Columns/Fitting.antt =====
-- The tables of `EnsureKeyspaceAndTable` and the statements of the two stores.
use confluo.Prelude.{ℕ, Text, true, ◌≡◌, refl, inl, inr, none, some, ◌∷◌, codes, text_eq}
use confluo.Fault.{ok}
use confluo.Store.{
  single_store, scoped_store, get_state, upsert_participant, upsert_participant_only, delete_state,
  get_state_v2, upsert_participant_v2, upsert_participant_only_v2, delete_state_v2,
}
use confluo.Store.Schema.{
  StoreConfig, with_defaults, join_state_table, join_state_v2_table, cluster_of,
  ensure_keyspace_and_table, new_store,
}
use mathlib.Core.Path.{subst}
use confluo.Prelude.{arith}
use confluo.World.{pure, Table}
use confluo.Store.Columns.{IsCreated, AllFit, fits, sql}
use confluo.World.Steps.{then_ok, opened_ok, defined_ok}
use confluo.World.{
  committed, Go, ◌>>◌, wrap, define, open_session, Services, World, History, Event, executed,
  defined, create_table, create_keyspace, Statement, update, delete, single, scoped, exec,
}
use confluo.World.Keeps.{Keeps, IsCalm, IsCall, Keeps-exec, keeps_rules}
use confluo.Store.Keeps.{StoreKeeps}

-- Both tables are there, in the keyspace of a configuration, and every statement so far of the store
-- with this configuration had its table.
pub record IsTyped (k : StoreConfig) (h : History) : Type 0 where
  pub table : IsCreated k.keyspace join_state_table h
  pub table_v2 : IsCreated k.keyspace join_state_v2_table h
  pub fit : AllFit k h

module _ (k : StoreConfig) where
  pub IsTyped-IsCalm : IsCalm (IsTyped k)
  IsTyped-IsCalm = record { step = go }
    where
      go : (e : Event) (h : History) → IsCall e → IsTyped k h → IsTyped k (e ∷ h)
      go (executed s r) h x g = absurd x
      go (committed rec r) h x g = absurd x
      go (defined (create_table j t) none) h x g = record {
        table = inr g.table;
        table_v2 = inr g.table_v2;
        fit = g.fit;
      }
      go (defined (create_table j t) (some y)) h x g = record {
        table = g.table;
        table_v2 = g.table_v2;
        fit = g.fit;
      }
      go (defined (create_keyspace j) r) h x g = record {
        table = g.table;
        table_v2 = g.table_v2;
        fit = g.fit;
      }
      go _ h x g = record { table = g.table; table_v2 = g.table_v2; fit = g.fit }

  -- A statement on one of the two tables.
  statement-Keeps :
      (s : Statement)
      → ((h : History)
          → IsTyped k h
          → (t : Table) × IsCreated (sql k s).keyspace t h × (fits t (sql k s) ≡ true))
      → Keeps (IsTyped k) (exec s)
  statement-Keeps s fit =
      Keeps-exec s
        (λ h r g. record { table = g.table; table_v2 = g.table_v2; fit = (fit h g, g.fit) })

  update-Keeps :
      (hash raw : Text) (c : ℕ) (stream payload : Text) (t : ℕ)
      → Keeps (IsTyped k) (
          exec (
            update (single hash) (record {
              join_key_raw = raw;
              config_id = some c;
              stream = stream;
              payload = payload;
              arrival = t;
            })))
  unfolding fits text_eq
  update-Keeps hash raw c stream payload t =
      statement-Keeps _ (λ h g. (join_state_table, g.table, refl))

  update_v2-Keeps :
      (c : ℕ) (hash raw : Text) (stream payload : Text) (t : ℕ)
      → Keeps (IsTyped k) (
          exec (
            update (scoped c hash) (record {
              join_key_raw = raw;
              config_id = none;
              stream = stream;
              payload = payload;
              arrival = t;
            })))
  unfolding fits text_eq
  update_v2-Keeps c hash raw stream payload t =
      statement-Keeps _ (λ h g. (join_state_v2_table, g.table_v2, refl))

  delete-Keeps : (hash : Text) → Keeps (IsTyped k) (exec (delete (single hash)))
  unfolding fits text_eq
  delete-Keeps hash = statement-Keeps _ (λ h g. (join_state_table, g.table, refl))

  delete_v2-Keeps : (c : ℕ) (hash : Text) → Keeps (IsTyped k) (exec (delete (scoped c hash)))
  unfolding fits text_eq
  delete_v2-Keeps c hash = statement-Keeps _ (λ h g. (join_state_v2_table, g.table_v2, refl))

  pub single-StoreKeeps : StoreKeeps (IsTyped k) single_store
  unfolding single_store get_state upsert_participant delete_state upsert_participant_only
  single-StoreKeeps = record {
    get = λ hash. search (keeps_rules, IsTyped-IsCalm);
    upsert = λ hash raw c stream payload. search (keeps_rules, update-Keeps, IsTyped-IsCalm);
    upsert_only = λ hash raw c stream payload. search (keeps_rules, update-Keeps, IsTyped-IsCalm);
    remove = delete-Keeps;
  }

  pub scoped-StoreKeeps : (c : ℕ) → StoreKeeps (IsTyped k) (scoped_store c)
  unfolding scoped_store get_state_v2 upsert_participant_v2 delete_state_v2
      upsert_participant_only_v2
  scoped-StoreKeeps c = record {
    get = λ hash. search (keeps_rules, IsTyped-IsCalm);
    upsert = λ hash raw i stream payload. search (keeps_rules, update_v2-Keeps, IsTyped-IsCalm);
    upsert_only =
        λ hash raw i stream payload. search (keeps_rules, update_v2-Keeps, IsTyped-IsCalm);
    remove = delete_v2-Keeps c;
  }

module _ (cfg : StoreConfig) (env : Services) (w w' : World) where
  abbrev name : Text
  name = (with_defaults cfg).keyspace

  abbrev c : StoreConfig
  c = with_defaults cfg

  abbrev by_table_v2 : Go (Unit {0})
  by_table_v2 = wrap "create table join_state_v2" (define (create_table name join_state_v2_table))

  abbrev by_table : Go (Unit {0})
  by_table = wrap "create table" (define (create_table name join_state_table))

  abbrev by_session : Go (Unit {0})
  by_session = wrap "create app session" (open_session (cluster_of c name))

  abbrev by_keyspace : Go (Unit {0})
  by_keyspace = wrap "create keyspace" (define (create_keyspace name))

  -- When both tables were created without an error, they are there.
  pub ensured-IsTyped :
      AllFit c w.history → ensure_keyspace_and_table cfg env w ≡ (ok tt, w') → IsTyped c w'.history
  unfolding ensure_keyspace_and_table
  ensured-IsTyped h e =
      let by_system : Go (Unit {0}) =
        wrap "create system session" (open_session (cluster_of c (codes "system"))) in
      let (w1, e1, r1) =
        then_ok by_system (by_keyspace >> (by_session >> (by_table >> by_table_v2))) env w tt w'
          e in
      let (w2, e2, r2) =
        then_ok by_keyspace (by_session >> (by_table >> by_table_v2)) env w1 tt w' r1 in
      let (w3, e3, r3) = then_ok by_session (by_table >> by_table_v2) env w2 tt w' r2 in
      let (w4, e4, r4) = then_ok by_table by_table_v2 env w3 tt w' r3 in
      let h1 = opened_ok env "create system session" w w1 _ e1 in
      let h2 = defined_ok env "create keyspace" w1 w2 _ e2 in
      let h3 = opened_ok env "create app session" w2 w3 _ e3 in
      let h4 = defined_ok env "create table" w3 w4 _ e4 in
      let h5 = defined_ok env "create table join_state_v2" w4 w' _ r4 in
      rw (h5, h4, h3, h2, h1)
        (record { table = inr (inl (refl, refl)); table_v2 = inl (refl, refl); fit = h })

-- What `New` keeps is the configuration with its defaults, and the tables that were there still are.
pub new_store-IsTyped :
    (cfg conf : StoreConfig) (env : Services) (w w' : World)
    → IsTyped (with_defaults cfg) w.history
    → new_store cfg env w ≡ (ok conf, w')
    → IsTyped conf w'.history
unfolding new_store
new_store-IsTyped cfg conf env w w' g e =
    let k = with_defaults cfg in
    let (w1, e1, r1) =
      then_ok (wrap "create session" (open_session (cluster_of k k.keyspace))) (pure k) env w conf
        w' e in
    let h1 = opened_ok env "create session" w w1 _ e1 in
    let same : k ≡ conf = ground arith in
    let stay : w1 ≡ w' = ground arith in
    subst (λ x. IsTyped x w'.history) same
      (subst (λ (x : World). IsTyped k x.history) stay (rw h1 ((IsTyped-IsCalm k).step _ _ tt g)))
