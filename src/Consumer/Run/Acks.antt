-- ===== src/Consumer/Run/Acks.antt =====
-- The commits that Kafka acknowledged: which records, in which order, and for what.
pub mod Accounts
pub mod Loop
use mathlib.Core.List.{reverse_aux, reverse_aux-append, Sublistᴰ}
use mathlib.Core.List.Sublistᴰ
use mathlib.Core.Path.{subst}
use confluo.Prelude.{
  ℕ, zero, suc, Text, ◌≡◌, refl, sym, ◌∙◌, ap, Option, none, some, List, [], ◌∷◌, ◌++◌, All, arith,
  Option-cases, inl, inr,
}
use confluo.Fault.{Error, Result, ok, err, from_error}
use confluo.Consumer.{Handler, handle}
use confluo.Consumer.Run.{
  Resolver, Poll, record_from_kgo, commit_with_retry, max_attempts, commit_backoff, process_records,
  process_partitions, first_error, run_once, run, go_on, after_handle, with_handler, commit_error,
}
use confluo.World.{
  KafkaRecord, Services, World, History, Event, Go, ◌>>=◌, committed, slept, commit_errors_total,
  handle_errors_total,
}
use confluo.World.Keeps.{Keeps}
use confluo.World.Extends.{
  Extends, Extends-refl, Extends-trans, Extends-call, Extends-IsCalm, Extends-KeptByCommits,
}
use confluo.Consumer.Run.Keeps.{commit-Keeps}

-- The records whose commits were acknowledged, newest first.
abbrev pub ack_step : Event → List KafkaRecord → List KafkaRecord
ack_step (committed r none) before = r ∷ before
ack_step _ before = before

unfoldable pub acked : History → List KafkaRecord
acked [] = []
acked (e ∷ h) = ack_step e (acked h)

abbrev pub after_attempts : KafkaRecord → Result (Unit {0}) → List KafkaRecord → List KafkaRecord
after_attempts rec (ok u) before = rec ∷ before
after_attempts rec (err e) before = before

-- However often it is tried, a record is acknowledged once if the attempts end without an error, and
-- not at all otherwise.
pub commit_with_retry-acked :
    (rec : KafkaRecord) (name : Text) (n backoff : ℕ) (env : Services) (w : World)
    → acked (commit_with_retry rec name (suc n) backoff env w).1.history
      ≡ after_attempts rec (commit_with_retry rec name (suc n) backoff env w).0 (acked w.history)
unfolding commit_with_retry acked
commit_with_retry-acked rec name zero backoff env w = ground arith
commit_with_retry-acked rec name (suc n) backoff env w =
    let r = env.commit w.history rec in
    let s = env.sleep (committed rec r ∷ w.history) backoff in
    let w' = record w {
      history = slept backoff s ∷ committed rec r ∷ w.history;
      metrics = commit_errors_total name ∷ w.metrics;
    } in
    ground (arith, commit_with_retry-acked rec name n backoff env w')

-- A commit of the record was acknowledged, after the calls of the first history.
abbrev pub Behind : KafkaRecord → History → History → Type 0
Behind rec h h' = (h1 : History) × Extends h h1 × Extends (committed rec none ∷ h1) h'

pub Behind-Extends :
    (rec : KafkaRecord) {h h1 h' : History} → Extends h1 h' → Behind rec h h1 → Behind rec h h'
Behind-Extends rec x (t, y, z) = (t, y, Extends-trans z x)

Behind-after :
    (rec : KafkaRecord) {h h1 h' : History} → Extends h h1 → Behind rec h1 h' → Behind rec h h'
Behind-after rec x (t, y, z) = (t, Extends-trans x y, z)

commit_with_retry-Keeps :
    (rec : KafkaRecord) (name : Text) (n backoff : ℕ) (h : History)
    → Keeps (Extends h) (commit_with_retry rec name n backoff)
commit_with_retry-Keeps rec name n backoff h =
    commit-Keeps (Extends-IsCalm h) (Extends-KeptByCommits h) rec name n backoff

pub commit_with_retry-Extends :
    (rec : KafkaRecord) (name : Text) (n backoff : ℕ) (env : Services) (w : World)
    → Extends w.history (commit_with_retry rec name n backoff env w).1.history
commit_with_retry-Extends rec name n backoff env w =
    (commit_with_retry-Keeps rec name n backoff w.history).at env w (Extends-refl w.history)

-- Attempts that end without an error leave an acknowledged commit behind what was there.
pub commit_with_retry-Behind :
    (rec : KafkaRecord) (name : Text) (n backoff : ℕ) (env : Services) (w : World)
    → (commit_with_retry rec name (suc n) backoff env w).0 ≡ ok tt
    → Behind rec w.history (commit_with_retry rec name (suc n) backoff env w).1.history
unfolding commit_with_retry
commit_with_retry-Behind rec name zero backoff env w e =
    elim (Option-cases (env.commit w.history rec)) [
      | inl done ↦ rw done (w.history, Extends-refl w.history, Extends-refl _)
      | inr (x, refused) ↦ absurd (ground (arith, refused))
    ]
commit_with_retry-Behind rec name (suc n) backoff env w e =
    elim (Option-cases (env.commit w.history rec)) [
      | inl done ↦ rw done (w.history, Extends-refl w.history, Extends-refl _)
      | inr (x, refused) ↦
          elim (Option-cases (env.sleep (committed rec (some x) ∷ w.history) backoff)) [
            | inl awake ↦
                let w' : World = record w {
                  history = slept backoff none ∷ committed rec (some x) ∷ w.history;
                  metrics = commit_errors_total name ∷ w.metrics;
                } in
                let more : Extends w.history w'.history =
                  (slept backoff none ∷ committed rec (some x) ∷ [], refl) in
                let again : commit_with_retry rec name (suc (suc n)) backoff env w
                    ≡ commit_with_retry rec name (suc n) backoff env w' =
                  ground (arith, refused, awake) in
                subst (λ o. Behind rec w.history o.1.history) (sym again)
                  (Behind-after rec more (
                    commit_with_retry-Behind rec name n backoff env w'
                      (ap (λ o. o.0) (sym again) ∙ e)))
            | inr (z, cancelled) ↦ absurd (ground (arith, refused, cancelled))
          ]
    ]
