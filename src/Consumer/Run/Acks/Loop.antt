-- ===== src/Consumer/Run/Acks/Loop.antt =====
-- The acknowledged commits of the consumer's loops.
use mathlib.Core.List.{flatten, append-nil}
use mathlib.Core.Path.{subst}
use confluo.Prelude.{Text, ◌≡◌, refl, ◌∙◌, ap, Option, none, List, [], ◌∷◌, ◌++◌}
use confluo.Fault.{Error, Result, ok, err, from_error}
use confluo.Consumer.{Handler, Record, handle}
use confluo.Consumer.Run.{
  Resolver, Poll, record_from_kgo, commit_with_retry, max_attempts, commit_backoff, process_records,
  process_partitions, first_error, run_once, run, go_on, after_handle, with_handler,
}
use confluo.World.{
  KafkaRecord, Services, World, History, Go, handle_errors_total, lift, ◌>>◌, ◌>>=◌,
}
use confluo.Prelude.{codes}
use confluo.World.Extends.{Extends, Extends-trans}
use confluo.Consumer.Run.Acks.{
  acked, after_attempts, commit_with_retry-acked, Behind, commit_with_retry-Behind,
  commit_with_retry-Extends,
}
use confluo.Consumer.Run.Acks.Accounts.{
  Earned, taken, unknown, Accounted, rest-Accounted, nothing-Accounted, passed-Accounted,
  acked-Accounted, after_attempts-Accounted, bind-Accounted,
}

-- The records of some polls, in the order in which the loop comes to them.
abbrev pub polled : List Poll → List KafkaRecord
polled [] = []
polled (p ∷ ps) = flatten p.partitions ++ polled ps

-- A handler that commits nothing itself.
abbrev pub Quiet : Services → Handler → Type 0
Quiet env hd =
    (r : Record) (w : World)
    → (acked (handle hd r env w).1.history ≡ acked w.history)
      × Extends w.history (handle hd r env w).1.history

module _ (get : Resolver) (env : Services) where
  module _ (quiet : (r : Record) (hd : Handler) → get r ≡ ok hd → Quiet env hd) where
    abbrev Turns : List KafkaRecord → (Option Error → Go (Option Error)) → Type 0
    Turns recs m =
        (last : Option Error) (w : World)
        → Accounted get env recs w.history (m last env w).1.history

    gone_on-Accounted :
        (rec : KafkaRecord) (recs : List KafkaRecord) (rest : Option Error → Go (Option Error))
        → Turns recs rest
        → (w w1 : World) (r : Result (Unit {0}))
        → acked w1.history ≡ after_attempts rec r (acked w.history)
        → Extends w.history w1.history
        → (r ≡ ok tt → Earned get env w1.history rec)
        → Accounted get env (rec ∷ recs) w.history (go_on r rest env w1).1.history
    gone_on-Accounted rec recs rest ih w w1 (ok u) e x g =
        acked-Accounted get env rec recs w.history w1.history _ e x (g refl) (ih none w1)
    gone_on-Accounted rec recs rest ih w w1 (err z) e x g =
        nothing-Accounted get env (rec ∷ recs) w.history w1.history e x

    abbrev commit_outcome : KafkaRecord → Text → World → Result (Unit {0}) × World
    commit_outcome rec name w = commit_with_retry rec name max_attempts commit_backoff env w

    handled-Accounted :
        (hd : Handler) (rec : KafkaRecord) (recs : List KafkaRecord) (last : Option Error)
        (rest : Option Error → Go (Option Error))
        → Turns recs rest
        → (w w1 : World) (r : Result (Unit {0})) → acked w1.history ≡ acked w.history
        → Extends w.history w1.history
        → ((h : History) → r ≡ ok tt → Behind rec w1.history h → Earned get env h rec)
        → Accounted get env
            (rec ∷ recs)
            w.history
            (after_handle hd rec last rest r env w1).1.history
    handled-Accounted hd rec recs last rest ih w w1 (ok u) e x g =
        let name = hd.join_cfg.name in
        gone_on-Accounted rec recs rest ih w (commit_outcome rec name w1).1
          (commit_outcome rec name w1).0
          (commit_with_retry-acked rec name 2 commit_backoff env w1
            ∙ ap (after_attempts rec (commit_outcome rec name w1).0) e)
          (Extends-trans x (commit_with_retry-Extends rec name max_attempts commit_backoff env w1))
          (λ done. g _ refl (commit_with_retry-Behind rec name 2 commit_backoff env w1 done))
    handled-Accounted hd rec recs last rest ih w w1 (err z) e x g =
        passed-Accounted get env rec recs w.history w1.history _ e x
          (ih last (record w1 { metrics = handle_errors_total hd.join_cfg.name ∷ w1.metrics }))

    routed-Accounted :
        (rec : KafkaRecord) (recs : List KafkaRecord) (last : Option Error)
        (rest : Option Error → Go (Option Error))
        → Turns recs rest
        → (r : Result Handler) → get (record_from_kgo rec) ≡ r
        → (w : World)
        → Accounted get env (rec ∷ recs) w.history (with_handler rec last rest r env w).1.history
    routed-Accounted rec recs last rest ih (err z) g w =
        let name = codes "unknown" in
        after_attempts-Accounted get env rec recs w.history _ (commit_outcome rec name w).0
          (commit_with_retry-acked rec name 2 commit_backoff env w)
          (commit_with_retry-Extends rec name max_attempts commit_backoff env w) (unknown z g)
    routed-Accounted rec recs last rest ih (ok hd) g w =
        let r = record_from_kgo rec in
        handled-Accounted hd rec recs last rest ih w (handle hd r env w).1 (handle hd r env w).0
          (quiet r hd g r w).0 (quiet r hd g r w).1 (λ h. taken hd w g)

    records-Accounted : (recs : List KafkaRecord) → Turns recs (process_records get recs)
    unfolding process_records
    records-Accounted [] last w = rest-Accounted get env [] w.history
    records-Accounted (rec ∷ recs) last w =
        routed-Accounted rec recs last (process_records get recs) (records-Accounted recs)
          (get (record_from_kgo rec)) refl w

    partitions-Accounted :
        (ps : List (List KafkaRecord)) → Turns (flatten ps) (process_partitions get ps)
    unfolding process_partitions flatten
    partitions-Accounted [] last w = rest-Accounted get env [] w.history
    partitions-Accounted (p ∷ ps) last w =
        bind-Accounted get env p (flatten ps) (process_partitions get ps) (partitions-Accounted ps)
          (process_records get p last) w (records-Accounted p last w)

    -- A check that comes before the calls of a turn.
    checked-Accounted :
        (recs : List KafkaRecord) (r : Result (Unit {0})) (m : Go (Unit {0}))
        → ((w' : World) → Accounted get env recs w'.history (m env w').1.history)
        → (w : World) → Accounted get env recs w.history ((lift r >> m) env w).1.history
    checked-Accounted recs r m next w =
        bind-Accounted get env [] recs (λ _. m) (λ _. next) (lift r) w
          (rest-Accounted get env [] w.history)

    abbrev fetched : Poll → Go (Unit {0})
    fetched p = process_partitions get p.partitions none >>= λ e. lift (from_error e)

    fetched-Accounted :
        (p : Poll) (w : World)
        → Accounted get env (flatten p.partitions) w.history (fetched p env w).1.history
    fetched-Accounted p w =
        subst (λ recs. Accounted get env recs w.history (fetched p env w).1.history)
          (append-nil (flatten p.partitions))
          (bind-Accounted get env (flatten p.partitions) [] (λ e. lift (from_error e))
            (λ e w'. rest-Accounted get env [] w'.history)
            (process_partitions get p.partitions none) w (partitions-Accounted p.partitions none w))

    once-Accounted :
        (p : Poll) (w : World)
        → Accounted get env (flatten p.partitions) w.history (run_once get p env w).1.history
    unfolding run_once
    once-Accounted p w =
        let before = from_error p.cancelled_before in
        let after = from_error p.cancelled_after in
        let fetch = from_error (first_error p.errors) in
        let recs = flatten p.partitions in
        checked-Accounted recs before (lift after >> (lift fetch >> fetched p))
          (checked-Accounted recs after (lift fetch >> fetched p)
            (checked-Accounted recs fetch (fetched p) (fetched-Accounted p)))
          w

    -- For handlers that commit nothing themselves: over any number of polls, the commits that Kafka
    -- acknowledges are, in the order in which they were polled, of some of the polled records, none
    -- more often than it was polled, and each of them was taken by its handler without an error or
    -- has no handler. This holds however many attempts a commit takes and wherever the loop ends.
    pub run-Accounted :
        (polls : List Poll) (w : World)
        → Accounted get env (polled polls) w.history (run get polls env w).1.history
    unfolding run
    run-Accounted [] w = rest-Accounted get env [] w.history
    run-Accounted (p ∷ ps) w =
        bind-Accounted get env (flatten p.partitions) (polled ps) (λ _. run get ps)
          (λ _. run-Accounted ps) (run_once get p) w (once-Accounted p w)
