-- ===== src/Tests/Interleaved.antt =====
-- An item that is scheduled between the cut and the publication of another, and a whole flush after it.
use confluo.Prelude.{select, Text, Bool, true, ◌≡◌, ◌+◌, refl, inl, [], ◌∷◌}
use confluo.World.{World}
use confluo.Delay.{schedule, flush_due, cut_due, publish_and_cleanup}
use confluo.Delay.Interleaving.{
  Shared, here, next, schedules, cuts, publishes, total, items, Reach-total, flush_due-Reach,
}
use confluo.Processor.{single_queue}
use confluo.Tests.Lab.{lab}
use confluo.Tests.Later.{memory_queue, early, later, waiting}

abbrev cut : World
cut = (cut_due memory_queue lab waiting).1

abbrev joined_in : World
joined_in =
    (schedule memory_queue later.join_key_hash later.joined_bytes later.msg_key later.publish_at lab
      cut).1

abbrev sent_one : World
sent_one =
    (publish_and_cleanup memory_queue early.join_key_hash early.joined_bytes early.msg_key lab
      joined_in).1

abbrev flushed : Shared
flushed = record { world = (flush_due memory_queue lab sent_one).1; flying = [] }

abbrev every : Text × Text → Bool
every m = true

Reach-total_example :
    total memory_queue every flushed
    ≡ total memory_queue every (record { world = waiting; flying = [] }) + items every (later ∷ [])
unfolding single_queue cut_due select
Reach-total_example = Reach-total memory_queue refl (inl refl) refl every (
    flush_due-Reach memory_queue refl (inl refl) refl lab sent_one (
      next
        (next (next here (cuts lab waiting cut (early ∷ []) refl))
          (schedules lab later cut (early ∷ [])))
        (publishes lab early [] joined_in)))
