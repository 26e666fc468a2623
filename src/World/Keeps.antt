-- ===== src/World/Keeps.antt =====
-- Invariants of histories: one rule for each way to build a program.
use confluo.Prelude.{ℕ, Text, String, Bool, true, false, List, ◌∷◌, Option, if◌then◌else◌}
use confluo.Fault.{Arg, Error, Result, ok, err}
use confluo.World.Events.{
  Statement, KafkaRecord, Cluster, Definition, History, Event, RowKey, Command, Query, executed,
  committed, Services, World, Metric, Pending,
}
use confluo.World.Program.{Go, pure, lift, asks, wrap, wrap_with, attempt, best_effort, when, ◌>>=◌}
use confluo.World.Calls.{
  time_now, scan, query, command, range_by_score, produce, exec, commit_records, sleep, context_err,
  open_session, define, join_group, count, read_pending, write_pending,
}

-- From a history with `P`, the program leaves one with `P`, whatever the services answer.
pub record Keeps {ℓ} {A : Type ℓ} (P : History → Type 0) (m : Go A) : Type ℓ where
  pub at : (env : Services) (w : World) → P w.history → P (m env w).1.history

module _ {ℓ} {A : Type ℓ} {P : History → Type 0} where
  pub Keeps-pure : (a : A) → Keeps P (pure a)
  Keeps-pure a = record { at = λ env w h. h }

  pub Keeps-lift : (r : Result A) → Keeps P (lift r)
  Keeps-lift r = record { at = λ env w h. h }

  pub Keeps-asks : (f : Services → Result A) → Keeps P (asks f)
  Keeps-asks f = record { at = λ env w h. h }

  pub Keeps-wrap : (s : String) (m : Go A) → Keeps P m → Keeps P (wrap s m)
  Keeps-wrap s m k = record { at = k.at }

  pub Keeps-wrap_with :
      (s : String) (args : List Arg) (m : Go A) → Keeps P m → Keeps P (wrap_with s args m)
  Keeps-wrap_with s args m k = record { at = k.at }

  pub Keeps-attempt : (m : Go A) → Keeps P m → Keeps P (attempt m)
  Keeps-attempt m k = record { at = k.at }

  pub Keeps-best_effort : (m : Go A) → Keeps P m → Keeps P (best_effort m)
  Keeps-best_effort m k = record { at = k.at }

  pub Keeps-if : (b : Bool) (m n : Go A) → Keeps P m → Keeps P n → Keeps P (if b then m else n)
  Keeps-if true m n km kn = km
  Keeps-if false m n km kn = kn

module _ {P : History → Type 0} where
  pub Keeps-when : (b : Bool) (m : Go (Unit {0})) → Keeps P m → Keeps P (when b m)
  Keeps-when true m k = record { at = k.at }
  Keeps-when false m k = record { at = λ env w h. h }

module _ {ℓ} {A B : Type ℓ} {P : History → Type 0} where
  continue-Keeps :
      (f : A → Go B)
      → ((a : A) → Keeps P (f a))
      → (r : Result A) (env : Services) (w : World) → P w.history
      → P ((elim r as (λ x. Result B × World) [ ok a ↦ f a env w | err e ↦ (err e, w) ]).1).history
  continue-Keeps f k (ok a) env w h = (k a).at env w h
  continue-Keeps f k (err e) env w h = h

  pub Keeps-bind :
      (m : Go A) (f : A → Go B) → Keeps P m → ((a : A) → Keeps P (f a)) → Keeps P (m >>= f)
  Keeps-bind m f km kf = record {
    at = λ env w h. continue-Keeps f kf (m env w).0 env (m env w).1 (km.at env w h);
  }

-- Every event but a statement that the database runs and a commit.
abbrev pub IsCall : Event → Type 0
IsCall (executed s r) = ⊥
IsCall (committed rec r) = ⊥
IsCall _ = Unit

-- A property of histories that only a statement or a commit can end.
pub record IsCalm (P : History → Type 0) : Type 0 where
  pub step : (e : Event) (h : History) → IsCall e → P h → P (e ∷ h)

-- A property that no commit can end.
abbrev pub KeptByCommits : (History → Type 0) → Type 0
KeptByCommits P =
    (rec : KafkaRecord) (h : History) (r : Option Error) → P h → P (committed rec r ∷ h)

module _ {P : History → Type 0} (calm : IsCalm P) where
  pub Keeps-time_now : Keeps P time_now
  Keeps-time_now = record { at = λ env w h. calm.step _ _ tt h }

  pub Keeps-scan : (k : RowKey) → Keeps P (scan k)
  Keeps-scan k = record { at = λ env w h. calm.step _ _ tt h }

  pub Keeps-query : (q : Query) → Keeps P (query q)
  Keeps-query q = record { at = λ env w h. calm.step _ _ tt h }

  pub Keeps-command : (c : Command) → Keeps P (command c)
  Keeps-command c = record { at = λ env w h. calm.step _ _ tt h }

  pub Keeps-range : (k : Text) (top n : ℕ) → Keeps P (range_by_score k top n)
  Keeps-range k top n = record { at = λ env w h. calm.step _ _ tt h }

  pub Keeps-produce : (topic key value : Text) → Keeps P (produce topic key value)
  Keeps-produce topic key value = record { at = λ env w h. calm.step _ _ tt h }

  pub Keeps-sleep : (d : ℕ) → Keeps P (sleep d)
  Keeps-sleep d = record { at = λ env w h. calm.step _ _ tt h }

  pub Keeps-open_session : (c : Cluster) → Keeps P (open_session c)
  Keeps-open_session c = record { at = λ env w h. calm.step _ _ tt h }

  pub Keeps-define : (d : Definition) → Keeps P (define d)
  Keeps-define d = record { at = λ env w h. calm.step _ _ tt h }

  pub Keeps-join_group :
      (brokers : List Text) (group topic : Text) → Keeps P (join_group brokers group topic)
  Keeps-join_group brokers group topic = record { at = λ env w h. calm.step _ _ tt h }

  pub Keeps-context_err : Keeps P context_err
  Keeps-context_err = record { at = λ env w h. calm.step _ _ tt h }

module _ {P : History → Type 0} where
  pub Keeps-commit : KeptByCommits P → (rec : KafkaRecord) → Keeps P (commit_records rec)
  Keeps-commit k rec = record { at = λ env w h. k rec w.history (env.commit w.history rec) h }

  pub Keeps-exec :
      (s : Statement)
      → ((h : History) (r : Option Error) → P h → P (executed s r ∷ h))
      → Keeps P (exec s)
  Keeps-exec s k = record { at = λ env w h. k w.history (env.exec w.history s) h }

module _ {P : History → Type 0} where
  pub Keeps-count : (m : Metric) → Keeps P (count m)
  Keeps-count m = record { at = λ env w h. h }

  pub Keeps-read_pending : (q : ℕ) → Keeps P (read_pending q)
  Keeps-read_pending q = record { at = λ env w h. h }

  pub Keeps-write_pending : (q : ℕ) (items : List Pending) → Keeps P (write_pending q items)
  Keeps-write_pending q items = record { at = λ env w h. h }

pub ruleset keeps_rules = (
  Keeps-pure, Keeps-lift, Keeps-asks, Keeps-wrap, Keeps-wrap_with, Keeps-attempt, Keeps-best_effort,
  Keeps-if, Keeps-when, Keeps-bind, Keeps-time_now, Keeps-scan, Keeps-query, Keeps-command,
  Keeps-range, Keeps-produce, Keeps-commit, Keeps-sleep, Keeps-open_session, Keeps-define,
  Keeps-join_group, Keeps-context_err, Keeps-count, Keeps-read_pending, Keeps-write_pending,
)
