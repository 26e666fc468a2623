-- ===== src/World/Calls.antt =====
-- One function for each call that leaves the process: it asks for the reply and records it.
use confluo.Prelude.{ℕ, Text, Bool, Option, List, ◌∷◌, ◌==◌, if◌then◌else◌}
use confluo.Fault.{Error, ok, from_error}
use confluo.World.Events.{
  RowKey, Statement, ScanReply, Command, Query, KafkaRecord, clock_read, executed, scanned,
  commanded, queried, ranged, produced, committed, slept, context_checked, opened, defined, joined,
  pinged, Cluster, Definition, Dependency, Metric, Pending,
}
use confluo.World.Program.{Go}

-- `time.Now()`
abbrev pub time_now : Go ℕ
time_now env w =
    let t = env.now w.history in (ok t, record w { history = clock_read t ∷ w.history })

-- `session.Query(...).Exec()`
abbrev pub exec : Statement → Go (Unit {0})
exec s env w =
    let r = env.exec w.history s in (from_error r, record w { history = executed s r ∷ w.history })

-- `session.Query(...).Scan(...)`
abbrev pub scan : RowKey → Go ScanReply
scan k env w =
    let r = env.scan w.history k in (ok r, record w { history = scanned k r ∷ w.history })

abbrev pub command : Command → Go (Unit {0})
command c env w =
    let r = env.command w.history c in
    (from_error r, record w { history = commanded c r ∷ w.history })

abbrev pub query : Query → Go Bool
query q env w = let r = env.query w.history q in (r, record w { history = queried q r ∷ w.history })

-- `redis.ZRangeByScore` from -inf up to a score, with a count.
abbrev pub range_by_score : Text → ℕ → ℕ → Go (List Text)
range_by_score k top n env w =
    let r = env.range w.history k top n in (r, record w { history = ranged k top n r ∷ w.history })

-- `kgo.Client.ProduceSync(...).FirstErr()`
abbrev pub produce : Text → Text → Text → Go (Unit {0})
produce topic key value env w =
    let r = env.produce w.history topic key value in
    (from_error r, record w { history = produced topic key value r ∷ w.history })

-- `kgo.Client.CommitRecords`
abbrev pub commit_records : KafkaRecord → Go (Unit {0})
commit_records rec env w =
    let r = env.commit w.history rec in
    (from_error r, record w { history = committed rec r ∷ w.history })

-- `select` over `ctx.Done()` and `time.After(d)`
abbrev pub sleep : ℕ → Go (Unit {0})
sleep d env w =
    let r = env.sleep w.history d in (from_error r, record w { history = slept d r ∷ w.history })

-- `ctx.Err()`
abbrev pub context_err : Go (Option Error)
context_err env w =
    let r = env.cancelled w.history in (ok r, record w { history = context_checked r ∷ w.history })

-- `cluster.CreateSession()`
abbrev pub open_session : Cluster → Go (Unit {0})
open_session c env w =
    let r = env.open_session w.history c in
    (from_error r, record w { history = opened c r ∷ w.history })

-- `session.Query("CREATE ...").Exec()`
abbrev pub define : Definition → Go (Unit {0})
define d env w =
    let r = env.define w.history d in (from_error r, record w { history = defined d r ∷ w.history })

-- `kgo.NewClient(...)`
abbrev pub join_group : List Text → Text → Text → Go (Unit {0})
join_group brokers group topic env w =
    let r = env.new_client w.history brokers group topic in
    (from_error r, record w { history = joined brokers group topic r ∷ w.history })

abbrev pub ping : Dependency → Go (Unit {0})
ping d env w =
    let r = env.ping w.history d in (from_error r, record w { history = pinged d r ∷ w.history })

-- `.Inc()` and `.Observe(...)`
abbrev pub count : Metric → Go (Unit {0})
count m env w = (ok tt, record w { metrics = m ∷ w.metrics })

-- The memory of one delay queue.
abbrev pub read_pending : ℕ → Go (List Pending)
read_pending q env w = (ok (w.pending q), w)

abbrev pub write_pending : ℕ → List Pending → Go (Unit {0})
write_pending q items env w =
    (ok tt, record w { pending = λ i. if i == q then items else w.pending i })
