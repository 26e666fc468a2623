-- ===== src/Processor/Stores/Wired.antt =====
-- What the handlers that `run` builds keep, if their store does.
use confluo.Prelude.{Text, ◌≡◌, refl, some}
use mathlib.Core.Path.{subst}
use confluo.Prelude.Int.{is_pos}
use confluo.Config.{ProcessorConfig, JoinConfig}
use confluo.Store.{single_store, scoped_store}
use confluo.Redis.{PartialTracker}
use confluo.Consumer.{Record, handle}
use confluo.World.{Codec, History}
use confluo.World.Keeps.{Keeps, IsCalm}
use confluo.Store.Keeps.{StoreKeeps}
use confluo.Processor.{
  has_redis, single_tracker, single_handler, single_manager, single_queue, multi_tracker,
  multi_handler, multi_manager, multi_queue,
}
use confluo.Processor.Keeps.{wired-PartsKeep, some_if}
use confluo.Processor.Stores.{store-handle-Keeps}
use confluo.Processor.Stores.Background.{tracker-Keeps}

module _ {P : History → Type 0} (calm : IsCalm P) (cfg : ProcessorConfig) (jc : JoinConfig) where
  abbrev pub TrackerKeeps : PartialTracker → Type 0
  TrackerKeeps t =
      (hash : Text) → Keeps P (t.add hash) × Keeps P (t.contains hash) × Keeps P (t.remove hash)

  module _ (keeps : StoreKeeps P single_store) where
    pub single_tracker-Keeps : (t : PartialTracker) → single_tracker cfg ≡ some t → TrackerKeeps t
    unfolding single_tracker
    single_tracker-Keeps t e =
        subst TrackerKeeps (some_if _ _ t e) (tracker-Keeps calm single_store keeps _)

    pub single_handler-Keeps : (r : Record) → Keeps P (handle (single_handler cfg jc) r)
    unfolding single_handler
    single_handler-Keeps =
        store-handle-Keeps calm single_store keeps (single_handler cfg jc) refl refl
          (wired-PartsKeep calm (has_redis cfg) (is_pos jc.post_join_delay) _
            (single_manager cfg jc) (single_queue cfg jc))
          (λ t e hash. ((single_tracker-Keeps t e hash).1, (single_tracker-Keeps t e hash).2))

  module _ (codec : Codec) (keeps : StoreKeeps P (scoped_store jc.config_id)) where
    pub multi_tracker-Keeps :
        (t : PartialTracker) → multi_tracker codec cfg jc ≡ some t → TrackerKeeps t
    unfolding multi_tracker
    multi_tracker-Keeps t e =
        subst TrackerKeeps (some_if _ _ t e)
          (tracker-Keeps calm (scoped_store jc.config_id) keeps _)

    pub multi_handler-Keeps : (r : Record) → Keeps P (handle (multi_handler codec cfg jc) r)
    unfolding multi_handler
    multi_handler-Keeps =
        store-handle-Keeps calm (scoped_store jc.config_id) keeps (multi_handler codec cfg jc) refl
          refl
          (wired-PartsKeep calm (has_redis cfg) (is_pos jc.post_join_delay) _
            (multi_manager codec cfg jc) (multi_queue cfg jc))
          (λ t e hash. ((multi_tracker-Keeps t e hash).1, (multi_tracker-Keeps t e hash).2))
