-- ===== src/Consumer/Run/Keeps.antt =====
-- The consumer's loops keep what the handler of every record keeps.
use confluo.Prelude.{ℕ, zero, suc, Text, ◌≡◌, refl, Option, none, List, [], ◌∷◌, All, ◌==◌}
use confluo.Fault.{Error, Result, ok, err}
use confluo.Consumer.{Handler, handle}
use confluo.Consumer.Run.{
  Resolver, Poll, record_from_kgo, commit_with_retry, max_attempts, commit_backoff, after_commit,
  after_failure, go_on, after_handle, with_handler, commit_error, process_records,
  process_partitions, run_once, run,
}
use confluo.World.{KafkaRecord, Go, History}
use confluo.World.Keeps.{
  Keeps, IsCalm, KeptByCommits, Keeps-bind, Keeps-lift, Keeps-if, Keeps-sleep, Keeps-attempt,
  Keeps-count, Keeps-pure, keeps_rules,
}

module _ {P : History → Type 0} (calm : IsCalm P) (commits : KeptByCommits P) where
  failure-Keeps :
      (left backoff : ℕ) (again : Go (Unit {0}))
      → Keeps P again
      → (e : Error) → Keeps P (after_failure left backoff again e)
  failure-Keeps left backoff again h e =
      Keeps-if (left == 0) _ _ (Keeps-lift (err e))
        (Keeps-bind _ _ (Keeps-sleep calm backoff) (λ _. h))

  commit-Keeps-after :
      (left backoff : ℕ) (name : Text) (again : Go (Unit {0}))
      → Keeps P again
      → (r : Result (Unit {0})) → Keeps P (after_commit left backoff name again r)
  commit-Keeps-after left backoff name again h (ok u) = search keeps_rules
  commit-Keeps-after left backoff name again h (err e) =
      Keeps-bind _ _ (Keeps-count _) (λ _. failure-Keeps left backoff again h e)

  pub commit-Keeps :
      (rec : KafkaRecord) (name : Text) (n backoff : ℕ)
      → Keeps P (commit_with_retry rec name n backoff)
  unfolding commit_with_retry
  commit-Keeps rec name zero backoff = search keeps_rules
  commit-Keeps rec name (suc n) backoff =
      let ih = commit-Keeps rec name n backoff in
      search (
        keeps_rules,
        commit-Keeps-after n backoff name (commit_with_retry rec name n backoff) ih,
        commits,
      )

  -- The loops keep a row that the handler of every record keeps.
  module _ (get : Resolver) where
    abbrev pub Handles : KafkaRecord → Type 0
    Handles rec =
        (h : Handler) → get (record_from_kgo rec) ≡ ok h → Keeps P (handle h (record_from_kgo rec))

    go_on-Keeps :
        (r : Result (Unit {0})) (rest : Option Error → Go (Option Error))
        → ((e : Option Error) → Keeps P (rest e))
        → Keeps P (go_on r rest)
    go_on-Keeps (ok u) rest h = h none
    go_on-Keeps (err e) rest h = search keeps_rules

    handled-Keeps :
        (h : Handler) (rec : KafkaRecord) (last : Option Error)
        (rest : Option Error → Go (Option Error))
        → ((e : Option Error) → Keeps P (rest e))
        → (r : Result (Unit {0})) → Keeps P (after_handle h rec last rest r)
    handled-Keeps h rec last rest keep (ok u) =
        Keeps-bind _ _
          (Keeps-attempt _ (commit-Keeps rec h.join_cfg.name max_attempts commit_backoff))
          (λ c. go_on-Keeps c rest keep)
    handled-Keeps h rec last rest keep (err e) = Keeps-bind _ _ (Keeps-count _) (λ _. keep last)

    routed-Keeps :
        (rec : KafkaRecord) (last : Option Error) (rest : Option Error → Go (Option Error))
        → ((e : Option Error) → Keeps P (rest e))
        → (r : Result Handler) → get (record_from_kgo rec) ≡ r
        → Handles rec
        → Keeps P (with_handler rec last rest r)
    routed-Keeps rec last rest keep (err e) g hs =
        Keeps-bind _ _ (Keeps-attempt _ (commit-Keeps rec _ max_attempts commit_backoff))
          (λ c. Keeps-pure (commit_error c))
    routed-Keeps rec last rest keep (ok h) g hs =
        Keeps-bind _ _ (Keeps-attempt _ (hs h g)) (λ r. handled-Keeps h rec last rest keep r)

    records-Keeps :
        (recs : List KafkaRecord)
        → All Handles recs
        → (last : Option Error) → Keeps P (process_records get recs last)
    unfolding process_records
    records-Keeps [] hs last = search keeps_rules
    records-Keeps (rec ∷ recs) hs last =
        routed-Keeps rec last (process_records get recs) (records-Keeps recs hs.1)
          (get (record_from_kgo rec)) refl hs.0

    partitions-Keeps :
        (ps : List (List KafkaRecord))
        → All (All Handles) ps
        → (last : Option Error) → Keeps P (process_partitions get ps last)
    unfolding process_partitions
    partitions-Keeps [] hs last = search keeps_rules
    partitions-Keeps (p ∷ ps) hs last =
        Keeps-bind _ _ (records-Keeps p hs.0 last) (λ e. partitions-Keeps ps hs.1 e)

    pub once-Keeps : (p : Poll) → All (All Handles) p.partitions → Keeps P (run_once get p)
    unfolding run_once
    once-Keeps p hs = search (keeps_rules, partitions-Keeps p.partitions hs) depth 10

    pub run-Keeps :
        (polls : List Poll)
        → All (λ p. All (All Handles) p.partitions) polls
        → Keeps P (run get polls)
    unfolding run
    run-Keeps [] hs = search keeps_rules
    run-Keeps (p ∷ ps) hs = Keeps-bind _ _ (once-Keeps p hs.0) (λ _. run-Keeps ps hs.1)
