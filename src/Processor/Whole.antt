-- ===== src/Processor/Whole.antt =====
-- The consumer and the timeout manager together, in a healthy system: their turns, in any order, are
-- moves of the join with deadlines.
use mathlib.Core.Path.{fun_ext, subst}
use confluo.Prelude.{ℕ, Bool, Text, ◌≡◌, refl, sym, ap, ◌∙◌, List, [], ◌∷◌, ◌++◌, map, All, arith}
use confluo.Prelude.Dict.{Dict}
use confluo.Fault.{Result, ok}
use confluo.Config.Validate.{is_partial}
use confluo.Config.{ProcessorConfig, JoinConfig, width}
use confluo.Hex.{encode}
use confluo.Hex.RoundTrip.{IsBytes}
use confluo.JoinSpec.Deadlines.{
  Move, arrive, lapse, table_moved, sent_moved, table_moved-append, sent_moved-append,
  table_moved-arrive, sent_moved-arrive,
}
use confluo.Timeout.{unix, new, process_members, process_due}
use confluo.World.{Services, World, KafkaRecord, clock_read, ranged}
use confluo.World.Views.{IsHealthy, IsJson, row_after, has_item, sent}
use confluo.Processor.{single_manager, timeouts_key}
use confluo.Processor.Join.{IsInner, serve, serve-Serves}
use confluo.Processor.Moves.{Moves, left, member-Moves}
use confluo.Processor.Serve.{Serves, arrivals_of}
use confluo.Processor.Sound.{IsSound, table_of}
use confluo.Processor.Steps.{joined_text}

module _ (env : Services) (cfg : ProcessorConfig) (jc : JoinConfig) where
  -- A turn of the consumer with the records of a partition, or one of the timeout manager in which
  -- Redis returns the encodings of some keys, and the moves of the join that it stands for.
  pub data Turn (w : World) : World → List Move → Type 0 where
    serves :
        (recs : List KafkaRecord)
        → Turn w (serve env cfg jc recs w) (map arrive (arrivals_of env.codec jc recs))
    expires :
        (hashes : List Text)
        → All IsBytes hashes
        → env.range
            (clock_read (env.now w.history) ∷ w.history)
            timeouts_key
            (unix (env.now w.history))
            100
          ≡ ok (map encode hashes)
        → Turn w (process_due (single_manager cfg jc) env w).1 (map lapse hashes)

  -- Turns in any order, with their moves.
  pub data Turns (s : World) : World → List Move → Type 0 where
    here : Turns s s []
    next : {t u : World} {ms ns : List Move} → Turns s t ms → Turn t u ns → Turns s u (ms ++ ns)

  abbrev n : ℕ
  n = width jc

  abbrev p : Bool
  p = is_partial jc.egress

  abbrev joined : Dict Text → Text
  joined = joined_text env jc

  Moves-append :
      {s t u : World} (ms ns : List Move)
      → Moves env cfg jc ms s t
      → Moves env cfg jc ns t u
      → Moves env cfg jc (ms ++ ns) s u
  Moves-append {s} {t} ms ns a b = record {
    table =
        b.table
        ∙ ap (λ x. table_moved n x ns) a.table
        ∙ sym (table_moved-append n (table_of s) ms ns);
    messages =
        b.messages
        ∙ ap (λ x. sent_moved p joined n x ns (sent cfg.egress_topic t.history)) a.table
        ∙ ap (λ y. sent_moved p joined n (table_moved n (table_of s) ms) ns y) a.messages
        ∙ sym (sent_moved-append n p joined (table_of s) ms ns (sent cfg.egress_topic s.history));
    kept = b.kept;
  }

  Serves-Moves :
      (recs : List KafkaRecord) {s t : World}
      → Serves env cfg jc (arrivals_of env.codec jc recs) s t
      → Moves env cfg jc (map arrive (arrivals_of env.codec jc recs)) s t
  Serves-Moves recs {s} a = record {
    table =
        fun_ext a.table ∙ sym (table_moved-arrive n (table_of s) (arrivals_of env.codec jc recs));
    messages =
        a.messages
        ∙ sym (
            sent_moved-arrive n p joined (table_of s) (arrivals_of env.codec jc recs)
              (sent cfg.egress_topic s.history));
    kept = a.kept;
  }

  module _ (sound : IsHealthy env) (json : IsJson env.codec) (plain : IsInner cfg jc) where
    members-Moves :
        (w : World) (hashes : List Text)
        → IsSound env cfg w
        → All IsBytes hashes
        → (w' : World) × (process_members (single_manager cfg jc) (map encode hashes) env w
            ≡ (ok tt, w'))
          × Moves env cfg jc (map lapse hashes) w w'
    unfolding process_members table_moved sent_moved
    members-Moves w [] v b = (w, refl, record { table = refl; messages = refl; kept = v })
    members-Moves w (h ∷ hs) v b =
        let w1 : World = left env sound json cfg jc plain w v h in
        let (e, m) = member-Moves env sound json cfg jc plain w v h b.0 in
        let (w2, e2, ms) = members-Moves w1 hs m.kept b.1 in
        (w2, ground (arith, e, e2), Moves-append (lapse h ∷ []) (map lapse hs) m ms)

    -- A turn of the timeout manager begins with the clock and the range.
    abbrev looked : World → Result (List Text) → World
    looked w r = record w {
      history =
          ranged timeouts_key (unix (env.now w.history)) 100 r
          ∷ clock_read (env.now w.history)
          ∷ w.history;
    }

    looked-IsSound :
        (w : World) (r : Result (List Text)) → IsSound env cfg w → IsSound env cfg (looked w r)
    unfolding row_after has_item
    looked-IsSound w r v = record { told = v.told; decodes = v.decodes }

    looked-Moves :
        (w w' : World) (r : Result (List Text)) (ms : List Move)
        → Moves env cfg jc ms (looked w r) w'
        → Moves env cfg jc ms w w'
    unfolding row_after sent
    looked-Moves w w' r ms m = record { table = m.table; messages = m.messages; kept = m.kept }

    expires-Moves :
        (w : World) (hashes : List Text)
        → IsSound env cfg w
        → All IsBytes hashes
        → env.range
            (clock_read (env.now w.history) ∷ w.history)
            timeouts_key
            (unix (env.now w.history))
            100
          ≡ ok (map encode hashes)
        → (w' : World) × (process_due (single_manager cfg jc) env w ≡ (ok tt, w'))
          × Moves env cfg jc (map lapse hashes) w w'
    unfolding process_due single_manager new
    expires-Moves w hashes v b found =
        let r : Result (List Text) = ok (map encode hashes) in
        let (w', e, m) = members-Moves (looked w r) hashes (looked-IsSound w r v) b in
        (w', ground (arith, found, e), looked-Moves w w' r (map lapse hashes) m)

    Turn-Moves :
        {s t : World} {ms : List Move} → IsSound env cfg s → Turn s t ms → Moves env cfg jc ms s t
    Turn-Moves v (serves recs) =
        Serves-Moves recs (serve-Serves env sound json cfg jc plain _ v recs)
    Turn-Moves {s} v (expires hashes b found) =
        let (w', e, m) = expires-Moves s hashes v b found in
        subst (λ x. Moves env cfg jc (map lapse hashes) s x.1) (sym e) m

    -- In a healthy system, with Redis, no corrections topic, no delay and two streams or more, and from
    -- a sound world: whatever turns the consumer and the timeout manager take, and in whatever order,
    -- the rows, the egress messages and the invariant are in the end those of the join with deadlines,
    -- run over the events of the records and the keys that expired, in the order of the turns.
    pub Turns-Moves :
        {s t : World} {ms : List Move} → IsSound env cfg s → Turns s t ms → Moves env cfg jc ms s t
    unfolding table_moved sent_moved
    Turns-Moves v here = record { table = refl; messages = refl; kept = v }
    Turns-Moves v (next {ms} {ns} r turn) =
        let a = Turns-Moves v r in Moves-append ms ns a (Turn-Moves a.kept turn)
