-- ===== src/Processor/Isolation.antt =====
-- With several configurations, the parts of one never touch the rows of another.
use confluo.Prelude.{ℕ, Text, ◌≡◌, refl, Option, some}
use mathlib.Core.Path.{subst}
use confluo.Prelude.Int.{is_pos}
use confluo.Config.{ProcessorConfig, JoinConfig}
use confluo.Store.{StateStore, scoped_store}
use confluo.Redis.{PartialTracker}
use confluo.Consumer.{Record, handle}
use confluo.Timeout.{new, process_due}
use confluo.Delay.{flush_due}
use confluo.World.{Codec, Services, World, RowKey}
use confluo.World.Keeps.{Keeps}
use confluo.World.Views.{Stored, row_after}
use confluo.Processor.{has_redis, multi_tracker, multi_handler, multi_manager, multi_queue}
use confluo.Processor.Keeps.{wired-PartsKeep, some_if}
use confluo.Processor.Foreign.{RowIs, RowIs-IsCalm, IsForeign, foreign-StoreKeeps}
use confluo.Store.Keeps.{StoreKeeps}
use confluo.Processor.Stores.{store-handle-Keeps}
use confluo.Processor.Stores.Background.{
  tracker-Keeps, store-flush_due-Keeps, store-process_due-Keeps,
}

module _ (codec : Codec) (cfg : ProcessorConfig) where
  -- One call of one of the parts of one configuration, with whatever the services answer.
  pub data Step (jc : JoinConfig) : World → World → Type 0 where
    consume :
        (env : Services) (r : Record) (w : World)
        → Step jc w (handle (multi_handler codec cfg jc) r env w).1
    time_out :
        (env : Services) (w : World) → Step jc w (process_due (multi_manager codec cfg jc) env w).1
    settle : (env : Services) (w : World) → Step jc w (flush_due (multi_queue cfg jc) env w).1

  -- Turns of the configurations with ids of a kind, in any order.
  pub data Reach (Q : ℕ → Type 0) (s : World) : World → Type 0 where
    here : Reach Q s s
    next :
        {t u : World} (jc : JoinConfig) → Q jc.config_id → Reach Q s t → Step jc t u → Reach Q s u

  module _ (k : RowKey) (o : Option Stored) (jc : JoinConfig)
      (foreign : IsForeign jc.config_id k) where
    abbrev own : StateStore
    own = scoped_store jc.config_id

    keeps : StoreKeeps (RowIs k o) own
    keeps = foreign-StoreKeeps jc.config_id k foreign o

    tracked :
        (t : PartialTracker)
        → multi_tracker codec cfg jc ≡ some t
        → (hash : Text)
        → Keeps (RowIs k o) (t.add hash)
          × Keeps (RowIs k o) (t.contains hash)
          × Keeps (RowIs k o) (t.remove hash)
    unfolding multi_tracker
    tracked t e hash =
        subst
          (λ (x : PartialTracker).
            Keeps (RowIs k o) (x.add hash)
            × Keeps (RowIs k o) (x.contains hash)
            × Keeps (RowIs k o) (x.remove hash))
          (some_if _ _ t e) (tracker-Keeps (RowIs-IsCalm k o) own keeps _ hash)

    pub multi-handle-Keeps :
        (r : Record) → Keeps (RowIs k o) (handle (multi_handler codec cfg jc) r)
    unfolding multi_handler
    multi-handle-Keeps r =
        store-handle-Keeps (RowIs-IsCalm k o) own keeps (multi_handler codec cfg jc) refl refl
          (wired-PartsKeep (RowIs-IsCalm k o) (has_redis cfg) (is_pos jc.post_join_delay) _
            (multi_manager codec cfg jc) (multi_queue cfg jc))
          (λ t e hash. ((tracked t e hash).1, (tracked t e hash).2)) r

    Step-RowIs : {t u : World} → Step jc t u → RowIs k o t.history → RowIs k o u.history
    unfolding multi_manager multi_queue new
    Step-RowIs (consume env r w) h = (multi-handle-Keeps r).at env w h
    Step-RowIs (time_out env w) h =
        (store-process_due-Keeps (RowIs-IsCalm k o) own keeps (multi_manager codec cfg jc) refl refl
            (λ t e hash. (tracked t e hash).0)).at
          env w h
    Step-RowIs (settle env w) h =
        (store-flush_due-Keeps (RowIs-IsCalm k o) own keeps (multi_queue cfg jc) refl refl).at env w
          h

  -- Whatever the services answer, and in whatever order the handlers, timeout managers and delay queues
  -- of some configurations take their turns: the row of a key under another configuration's id, and
  -- that of a key in the table without ids, are in the end what they were.
  pub Reach-RowIs :
      (Q : ℕ → Type 0) (k : RowKey) {s t : World}
      → ((id : ℕ) → Q id → IsForeign id k)
      → Reach Q s t
      → row_after t.history k ≡ row_after s.history k
  Reach-RowIs Q k f here = refl
  Reach-RowIs Q k {s} f (next jc q r st) =
      Step-RowIs k (row_after s.history k) jc (f jc.config_id q) st (Reach-RowIs Q k f r)
