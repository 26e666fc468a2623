-- ===== src/Tests/Later.antt =====
-- The delay queue: in memory, and in a Redis set.
use confluo.Delay.Scores.{IsFloat, schedule_score}
use native.Mathlib.Omega.{arith}
use confluo.Prelude.{
  false, ℕ, zero, suc, Text, codes, select, length, ◌++◌, ◌+◌, ◌≤◌, ◌≡◌, refl, ◌∙◌, ap, none, some,
  [], ◌∷◌,
}
use confluo.Fault.{ok, err, external, Result}
use confluo.World.{Services, World, Pending, DelayedItem, commanded, produced, zadd, zrem}
use confluo.World.Views.{IsHealthy, sent}
use confluo.Base64
use confluo.Delay.{Queue, schedule, flush_due, flush_member, float64}
use confluo.Delay.Memory.{sent_items, flush_due_memory_lem}
use confluo.Delay.Durable.{ReadsBack, packed, queued, flush_member_loses, schedule_flush}
use confluo.Processor.{single_queue}
use confluo.Tests.Lab.{lab, lab-IsHealthy, start, settings, join_partial}

abbrev pub memory_queue : Queue
memory_queue = single_queue (record settings { redis_addr = [] }) join_partial

abbrev pub early : Pending
early = record {
  join_key_hash = codes "k";
  joined_bytes = codes "one";
  msg_key = codes "m";
  publish_at = 3;
}

abbrev pub later : Pending
later = record {
  join_key_hash = codes "l";
  joined_bytes = codes "two";
  msg_key = codes "n";
  publish_at = 9;
}

abbrev pub waiting : World
waiting = record start { pending = λ i. later ∷ early ∷ [] }

flush_due_memory_lem_example :
    (sent (codes "joined") (flush_due memory_queue lab waiting).1.history
      ≡ (codes "m", codes "one") ∷ [])
    × ((flush_due memory_queue lab waiting).1.pending 0 ≡ later ∷ [])
unfolding sent_items single_queue select sent
flush_due_memory_lem_example =
    flush_due_memory_lem lab lab-IsHealthy memory_queue refl refl waiting refl

-- A broker that takes nothing.
abbrev closed : Services
closed = record lab { produce = λ h topic key value. some (external 4) }

abbrev redis_queue : Queue
redis_queue = single_queue settings join_partial

-- A member stands in the set.
abbrev waits : World
waits = record start {
  history = commanded (zadd (codes "omni_joiner:delay:orders") 3 (codes "YWI=")) none ∷ [];
}

flush_member_loses_example :
    ((flush_member redis_queue (codes "YWI=") closed waits).1.history
      ≡ commanded (zrem (codes "omni_joiner:delay:orders") (codes "YWI=")) none
        ∷ produced (codes "joined") (codes "ab") (codes "ab") (some (external 4))
        ∷ waits.history)
    × (sent (codes "joined") (flush_member redis_queue (codes "YWI=") closed waits).1.history ≡ [])
    × (queued
          (codes "omni_joiner:delay:orders")
          (codes "YWI=")
          (flush_member redis_queue (codes "YWI=") closed waits).1.history
        ≡ false)
unfolding single_queue sent Base64.decode select queued
flush_member_loses_example =
    flush_member_loses closed redis_queue waits (codes "YWI=")
      (record { h = codes "YWI="; j = codes "YWI="; k = codes "YWI=" }) (external 4) refl refl refl

-- The first n values, and the rest.
split : ℕ → Text → Text × Text
split zero xs = ([], xs)
split (suc n) [] = ([], [])
split (suc n) (x ∷ xs) = let (a, b) = split n xs in (x ∷ a, b)

split-length : (xs ys : Text) → split (length xs) (xs ++ ys) ≡ (xs, ys)
unfolding split
split-length [] ys = refl
split-length (x ∷ xs) ys = rw (split-length xs ys) refl

-- Two lengths, then the three texts.
packing : DelayedItem → Text
packing i = length i.h ∷ length i.j ∷ i.h ++ (i.j ++ i.k)

abbrev with_second : Text → Text × Text → Result DelayedItem
with_second h (j, k) = ok (record { h = h; j = j; k = k })

abbrev with_first : ℕ → Text × Text → Result DelayedItem
with_first b (h, rest) = with_second h (split b rest)

unpacking : Text → Result DelayedItem
unpacking (a ∷ b ∷ rest) = with_first b (split a rest)
unpacking _ = err (external 5)

abbrev keeping : Services
keeping = record lab {
  codec = record lab.codec { marshal_item = λ i. ok (packing i); unmarshal_item = unpacking };
}

keeping-IsHealthy : IsHealthy keeping
keeping-IsHealthy = record {
  exec_ok = lab-IsHealthy.exec_ok;
  command_ok = lab-IsHealthy.command_ok;
  produce_ok = lab-IsHealthy.produce_ok;
  commit_ok = lab-IsHealthy.commit_ok;
  scan_row = lab-IsHealthy.scan_row;
  query_ok = lab-IsHealthy.query_ok;
  no_false_negative = lab-IsHealthy.no_false_negative;
}

unpacking-packing : (i : DelayedItem) → unpacking (packing i) ≡ ok i
unfolding packing unpacking
unpacking-packing i =
    ap (with_first (length i.j)) (split-length i.h (i.j ++ i.k))
    ∙ ap (with_second i.h) (split-length i.j i.k)

keeping-ReadsBack : ReadsBack keeping.codec
keeping-ReadsBack i s e = ground (arith, unpacking-packing i)

abbrev member : Text
member = packing (packed (codes "k") (codes "ab") (codes "m"))

schedule_flush_example :
    ((schedule redis_queue (codes "k") (codes "ab") (codes "m") 9 keeping start).1.history
      ≡ commanded (zadd (codes "omni_joiner:delay:orders") (float64 9) member) none ∷ [])
    × (sent (codes "joined") (flush_member redis_queue member keeping start).1.history
        ≡ (codes "m", codes "ab") ∷ [])
unfolding single_queue sent
schedule_flush_example =
    schedule_flush keeping keeping-IsHealthy keeping-ReadsBack redis_queue refl refl start start
      (codes "k") (codes "ab") (codes "m") 9 member refl (omega arith) (omega arith) refl

-- A time of the year 2023, in nanoseconds.
abbrev at_2023 : ℕ
at_2023 = 1700000000123456789

schedule_score_example :
    (score : ℕ) × ((schedule redis_queue
        (codes "k")
        (codes "ab")
        (codes "m")
        at_2023
        keeping
        start).1.history
      ≡ commanded
          (zadd redis_queue.redis_key score member)
          (keeping.command start.history (zadd redis_queue.redis_key score member))
        ∷ start.history)
    × IsFloat score
    × (at_2023 ≤ score + 1024)
    × (score ≤ at_2023 + 1024)
unfolding single_queue
schedule_score_example =
    schedule_score keeping redis_queue start (codes "k") (codes "ab") (codes "m") at_2023 member
      refl refl (omega arith)
