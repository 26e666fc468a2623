-- ===== src/Processor/Schema.antt =====
-- The statements of the process and the tables that were created at its start.
use confluo.Prelude.{◌≡◌, refl}
use confluo.Fault.{ok}
use confluo.Config.{ProcessorConfig, JoinConfig}
use confluo.Store.{StateStore, single_store, scoped_store}
use confluo.Store.Schema.{StoreConfig, with_defaults, ensure_keyspace_and_table, new_store}
use confluo.Startup.Run.{store_config}
use confluo.Store.Columns.{AllFit}
use confluo.Store.Columns.Fitting.{
  IsTyped, IsTyped-IsCalm, single-StoreKeeps, scoped-StoreKeeps, ensured-IsTyped, new_store-IsTyped,
}
use confluo.Consumer.{Record, handle}
use confluo.Timeout.{new, process_due}
use confluo.Delay.{flush_due}
use confluo.World.{Codec, Services, World, History}
use confluo.Processor.{
  single_handler, single_manager, single_queue, multi_handler, multi_manager, multi_queue,
}
use confluo.Processor.Stores.Wired.{
  single_tracker-Keeps, single_handler-Keeps, multi_tracker-Keeps, multi_handler-Keeps,
}
use confluo.Processor.Stores.Background.{store-flush_due-Keeps, store-process_due-Keeps}

module _ (codec : Codec) (cfg : ProcessorConfig) where
  -- One call of a part of the process with one configuration or with several, with whatever the
  -- services answer.
  pub data Step (jc : JoinConfig) : World → World → Type 0 where
    consume :
        (env : Services) (r : Record) (w : World)
        → Step jc w (handle (single_handler cfg jc) r env w).1
    time_out :
        (env : Services) (w : World) → Step jc w (process_due (single_manager cfg jc) env w).1
    settle : (env : Services) (w : World) → Step jc w (flush_due (single_queue cfg jc) env w).1
    consume_scoped :
        (env : Services) (r : Record) (w : World)
        → Step jc w (handle (multi_handler codec cfg jc) r env w).1
    time_out_scoped :
        (env : Services) (w : World) → Step jc w (process_due (multi_manager codec cfg jc) env w).1
    settle_scoped :
        (env : Services) (w : World) → Step jc w (flush_due (multi_queue cfg jc) env w).1

  pub data Reach (s : World) : World → Type 0 where
    here : Reach s s
    next : {t u : World} (jc : JoinConfig) → Reach s t → Step jc t u → Reach s u

  module _ (k : StoreConfig) (jc : JoinConfig) where
    abbrev P : History → Type 0
    P = IsTyped k

    abbrev own : StateStore
    own = scoped_store jc.config_id

    Step-IsTyped : {t u : World} → Step jc t u → P t.history → P u.history
    unfolding single_manager single_queue multi_manager multi_queue new
    Step-IsTyped (consume env r w) h =
        (single_handler-Keeps (IsTyped-IsCalm k) cfg jc (single-StoreKeeps k) r).at env w h
    Step-IsTyped (time_out env w) h =
        (store-process_due-Keeps (IsTyped-IsCalm k) single_store (single-StoreKeeps k)
            (single_manager cfg jc) refl refl
            (λ t e hash.
              (single_tracker-Keeps (IsTyped-IsCalm k) cfg jc (single-StoreKeeps k) t e hash).0)).at
          env w h
    Step-IsTyped (settle env w) h =
        (store-flush_due-Keeps (IsTyped-IsCalm k) single_store (single-StoreKeeps k)
            (single_queue cfg jc) refl refl).at
          env w h
    Step-IsTyped (consume_scoped env r w) h =
        (multi_handler-Keeps (IsTyped-IsCalm k) cfg jc codec (scoped-StoreKeeps k jc.config_id)
            r).at
          env w h
    Step-IsTyped (time_out_scoped env w) h =
        (store-process_due-Keeps (IsTyped-IsCalm k) own (scoped-StoreKeeps k jc.config_id)
            (multi_manager codec cfg jc) refl refl
            (λ t e hash.
              (multi_tracker-Keeps (IsTyped-IsCalm k) cfg jc codec
                (scoped-StoreKeeps k jc.config_id) t e hash).0)).at
          env w h
    Step-IsTyped (settle_scoped env w) h =
        (store-flush_due-Keeps (IsTyped-IsCalm k) own (scoped-StoreKeeps k jc.config_id)
            (multi_queue cfg jc) refl refl).at
          env w h

  Reach-IsTyped :
      (k : StoreConfig) {s t : World} → Reach s t → IsTyped k s.history → IsTyped k t.history
  Reach-IsTyped k here h = h
  Reach-IsTyped k (next jc r st) h = Step-IsTyped k jc st (Reach-IsTyped k r h)

  -- From the configuration of the process, the keyspace and the tables were created without an error,
  -- the store was made without one, and no statement was run before that does not fit. Then,
  -- whatever the services answer afterwards and in whatever order the parts of the process take
  -- their turns, every UPDATE and DELETE is on a table that was created before it in the keyspace
  -- that the store writes into the statement; it binds the whole primary key of this table, and
  -- assigns only columns that the table has outside the key, at their types.
  pub Reach-AllFit :
      (conf : StoreConfig) (env : Services) (w w1 : World) {s t : World}
      → AllFit (with_defaults (store_config cfg)) w.history
      → ensure_keyspace_and_table (store_config cfg) env w ≡ (ok tt, w1)
      → new_store (store_config cfg) env w1 ≡ (ok conf, s)
      → Reach s t
      → AllFit conf t.history
  Reach-AllFit conf env w w1 {s} h e n r =
      let made = ensured-IsTyped (store_config cfg) env w w1 h e in
      let kept = new_store-IsTyped (store_config cfg) conf env w1 s made n in
      (Reach-IsTyped conf r kept).fit
