-- ===== src/Consumer/Run/Faults.antt =====
-- What a turn of the consumer does with records that it cannot route, handle or commit.
use mathlib.Core.Path.{fun_ext}
use confluo.Prelude.{◌≡◌, refl, sym, ap, ◌∙◌, Option, none, List, [], ◌∷◌, ◌++◌}
use confluo.Fault.{Error, Result, ok, err, from_error}
use confluo.World.{KafkaRecord, Services, World, Go, ◌>>=◌, lift, handle_errors_total}
use confluo.Consumer.{Handler, Record, handle}
use confluo.Consumer.Run.Acks.{acked, after_attempts, commit_with_retry-acked}
use confluo.Consumer.Run.Acks.Loop.{Quiet}
use confluo.Consumer.Run.{
  Resolver, Poll, record_from_kgo, run_once, first_error, commit_with_retry, max_attempts,
  commit_backoff, with_handler, process_records, process_partitions,
}

module _ (get : Resolver) (bad : KafkaRecord) (e : Error)
    (lost : get (record_from_kgo bad) ≡ err e) where
  cut_everywhere :
      (before rest rest' : List KafkaRecord)
      → process_records get (before ++ bad ∷ rest) ≡ process_records get (before ++ bad ∷ rest')
  unfolding process_records
  cut_everywhere [] rest rest' = fun_ext (λ last. rw lost refl)
  cut_everywhere (r ∷ before) rest rest' = fun_ext (λ last.
      ap (λ k. with_handler r last k (get (record_from_kgo r))) (cut_everywhere before rest rest'))

  -- When a record of a partition has no handler, whatever was polled behind it makes no difference:
  -- the outcome and the calls are those of the partition that ends with this record.
  pub process_records_cut :
      (before rest : List KafkaRecord) (last : Option Error) (env : Services) (w : World)
      → process_records get (before ++ bad ∷ rest) last env w
        ≡ process_records get (before ++ bad ∷ []) last env w
  process_records_cut before rest last env w =
      ap (λ k. k last env w) (cut_everywhere before rest [])

-- What a poll without an error fetches.
abbrev pub fetched : List (List KafkaRecord) → Poll
fetched ps = record {
  cancelled_before = none;
  cancelled_after = none;
  errors = [];
  partitions = ps;
}

module _ (get : Resolver) (env : Services) where
  -- Records that have handlers, which fail on them: from a world, each is handled in turn and counted.
  pub data Failing : List KafkaRecord → World → World → Type 0 where
    none_left : {w : World} → Failing [] w w
    one_more :
        {bad : KafkaRecord} {bads : List KafkaRecord} {w failed w' : World} {h : Handler}
        {e : Error}
        → get (record_from_kgo bad) ≡ ok h
        → handle h (record_from_kgo bad) env w ≡ (err e, failed)
        → Failing bads
            (record failed { metrics = handle_errors_total h.join_cfg.name ∷ failed.metrics })
            w'
        → Failing (bad ∷ bads) w w'

  passed_over :
      {bads : List KafkaRecord} {w w' : World} (recs : List KafkaRecord) (last : Option Error)
      → Failing bads w w'
      → process_records get (bads ++ recs) last env w ≡ process_records get recs last env w'
  unfolding process_records
  passed_over recs last none_left = refl
  passed_over recs last (one_more r f rest) = rw (r, f) (passed_over recs last rest)

  acked-Failing :
      {bads : List KafkaRecord} {w w' : World}
      → ((r : Record) (hd : Handler) → get r ≡ ok hd → Quiet env hd)
      → Failing bads w w'
      → acked w'.history ≡ acked w.history
  acked-Failing quiet none_left = refl
  acked-Failing quiet (one_more {bad} {w} {h} r f rest) =
      acked-Failing quiet rest
      ∙ (ap (λ o. acked o.1.history) (sym f)
          ∙ (quiet (record_from_kgo bad) h r (record_from_kgo bad) w).0)

  -- A record that is handled and committed makes the error before it irrelevant.
  handled_and_committed :
      (rec : KafkaRecord) (h : Handler) (rest : List KafkaRecord) (last : Option Error)
      (w w1 w2 : World)
      → get (record_from_kgo rec) ≡ ok h
      → handle h (record_from_kgo rec) env w ≡ (ok tt, w1)
      → commit_with_retry rec h.join_cfg.name max_attempts commit_backoff env w1 ≡ (ok tt, w2)
      → process_records get (rec ∷ rest) last env w ≡ process_records get rest none env w2
  unfolding process_records
  handled_and_committed rec h rest last w w1 w2 r f c = rw (r, f, c) refl

  -- Any number of records of a partition have handlers that return errors on them, and the record
  -- behind them is handled and committed without one, by handlers that commit nothing themselves.
  -- Then the one commit that Kafka acknowledged up to there is that of this later record, none is
  -- of a failed one, and the partition goes on with what was polled behind it, without an error.
  pub process_records_passes :
      (bads : List KafkaRecord) (rec : KafkaRecord) (h : Handler) (rest : List KafkaRecord)
      (last : Option Error) (start w w1 w2 : World)
      → ((r : Record) (hd : Handler) → get r ≡ ok hd → Quiet env hd)
      → Failing bads start w
      → get (record_from_kgo rec) ≡ ok h
      → handle h (record_from_kgo rec) env w ≡ (ok tt, w1)
      → commit_with_retry rec h.join_cfg.name max_attempts commit_backoff env w1 ≡ (ok tt, w2)
      → (process_records get (bads ++ rec ∷ rest) last env start
          ≡ process_records get rest none env w2)
        × (acked w2.history ≡ rec ∷ acked start.history)
  process_records_passes bads rec h rest last start w w1 w2 quiet failing r f c = (
    passed_over (rec ∷ rest) last failing ∙ handled_and_committed rec h rest last w w1 w2 r f c,
    ap (λ o. acked o.1.history) (sym c)
        ∙ (commit_with_retry-acked rec h.join_cfg.name 2 commit_backoff env w1
            ∙ (ap (λ o. after_attempts rec o.0 (acked w1.history)) c
                ∙ ap (λ l. rec ∷ l)
                    (ap (λ o. acked o.1.history) (sym f)
                      ∙ ((quiet (record_from_kgo rec) h r (record_from_kgo rec) w).0
                          ∙ acked-Failing quiet failing)))),
  )

  handled_first :
      (rec : KafkaRecord) (h : Handler) (rest : List KafkaRecord) (last last' : Option Error)
      (w w1 : World)
      → get (record_from_kgo rec) ≡ ok h
      → handle h (record_from_kgo rec) env w ≡ (ok tt, w1)
      → process_records get (rec ∷ rest) last env w ≡ process_records get (rec ∷ rest) last' env w
  unfolding process_records
  handled_first rec h rest last last' w w1 r f = rw (r, f) refl

  -- The result and the world of a call, as a program that has them.
  abbrev done : {A : Type 0} → Result A × World → Go A
  done o env w = o

  bound :
      {A B C : Type 0} (f : A → Go C) (g : A → Go B) (k : B → Go C)
      → ((a : A) (w : World) → f a env w ≡ (g a >>= k) env w)
      → (r : Result A) (w w' : World)
      → (done (r, w') >>= f) env w ≡ ((done (r, w') >>= g) >>= k) env w
  bound f g k same (ok a) w w' = same a w'
  bound f g k same (err e) w w' = refl

  partitions_behind :
      (ps qs : List (List KafkaRecord)) (last : Option Error) (w : World)
      → process_partitions get (ps ++ qs) last env w
        ≡ (process_partitions get ps last >>= process_partitions get qs) env w
  unfolding process_partitions
  partitions_behind [] qs last w = refl
  partitions_behind (p ∷ ps) qs last w =
      let o = process_records get p last env w in
      bound (process_partitions get (ps ++ qs)) (process_partitions get ps)
        (process_partitions get qs) (partitions_behind ps qs) o.0 w o.1

  last_partition :
      (rec : KafkaRecord) (h : Handler) (rest : List KafkaRecord) (e : Option Error) (w w1 : World)
      → get (record_from_kgo rec) ≡ ok h
      → handle h (record_from_kgo rec) env w ≡ (ok tt, w1)
      → process_partitions get ((rec ∷ rest) ∷ []) e env w
        ≡ process_partitions get ((rec ∷ rest) ∷ []) none env w
  unfolding process_partitions
  last_partition rec h rest e w w1 r f =
      ap (λ o. (done o >>= process_partitions get []) env w)
        (handled_first rec h rest e none w w1 r f)

  -- A turn of the loop, with a poll that had no error, comes to its last partition, and the first
  -- record of it is handled without an error. Then the turn ends as one that polled this partition
  -- alone from there on: whatever error the commits in the partitions before it had, the turn
  -- does not return it.
  pub run_once_forgets :
      (ps : List (List KafkaRecord)) (rec : KafkaRecord) (h : Handler) (rest : List KafkaRecord)
      (e : Option Error) (start w w1 : World)
      → process_partitions get ps none env start ≡ (ok e, w)
      → get (record_from_kgo rec) ≡ ok h
      → handle h (record_from_kgo rec) env w ≡ (ok tt, w1)
      → run_once get (fetched (ps ++ (rec ∷ rest) ∷ [])) env start
        ≡ run_once get (fetched ((rec ∷ rest) ∷ [])) env w
  unfolding run_once first_error
  run_once_forgets ps rec h rest e start w w1 before r f =
      ap (λ o. (done o >>= λ x. lift (from_error x)) env start)
        (partitions_behind ps ((rec ∷ rest) ∷ []) none start
          ∙ (ap (λ o. (done o >>= process_partitions get ((rec ∷ rest) ∷ [])) env start) before
              ∙ last_partition rec h rest e w w1 r f))
