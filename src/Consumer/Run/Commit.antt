-- ===== src/Consumer/Run/Commit.antt =====
-- The commits of a record.
use confluo.Prelude.{ℕ, zero, suc, ◌+◌, ◌≤◌, ◌≡◌, Text, none, [], ◌∷◌, arith}
use confluo.Fault.{ok}
use confluo.World.{
  KafkaRecord, Services, World, History, Event, committed, slept, commit_errors_total,
}
use confluo.Consumer.Run.{commit_with_retry}

-- How many commits a history has, failed ones included.
abbrev pub commit_step : Event → ℕ → ℕ
commit_step (committed r e) n = suc n
commit_step _ n = n

unfoldable pub commits : History → ℕ
commits [] = 0
commits (e ∷ h) = commit_step e (commits h)

-- At most the given number of attempts is made.
pub commits-commit_with_retry :
    (rec : KafkaRecord) (name : Text) (n backoff : ℕ) (env : Services) (w : World)
    → commits (commit_with_retry rec name n backoff env w).1.history ≤ commits w.history + n
unfolding commit_with_retry commits
commits-commit_with_retry rec name zero backoff env w = omega arith
commits-commit_with_retry rec name (suc n) backoff env w =
    let r = env.commit w.history rec in
    let s = env.sleep (committed rec r ∷ w.history) backoff in
    let w' = record w {
      history = slept backoff s ∷ committed rec r ∷ w.history;
      metrics = commit_errors_total name ∷ w.metrics;
    } in
    ground (arith, commits-commit_with_retry rec name n backoff env w')

-- The newest call is a commit of the record that Kafka acknowledged.
abbrev pub IsCommitted : KafkaRecord → History → Type 0
IsCommitted rec [] = ⊥
IsCommitted rec (e ∷ h) = e ≡ committed rec none

-- If the attempts end without an error, the last of them was acknowledged.
pub commit_with_retry-IsCommitted :
    (rec : KafkaRecord) (name : Text) (n backoff : ℕ) (env : Services) (w : World)
    → (commit_with_retry rec name (suc n) backoff env w).0 ≡ ok tt
    → IsCommitted rec (commit_with_retry rec name (suc n) backoff env w).1.history
unfolding commit_with_retry
commit_with_retry-IsCommitted rec name zero backoff env w h = ground arith
commit_with_retry-IsCommitted rec name (suc n) backoff env w h =
    let r = env.commit w.history rec in
    let s = env.sleep (committed rec r ∷ w.history) backoff in
    let w' = record w {
      history = slept backoff s ∷ committed rec r ∷ w.history;
      metrics = commit_errors_total name ∷ w.metrics;
    } in
    ground (arith, commit_with_retry-IsCommitted rec name n backoff env w')
