-- ===== src/Metrics.antt =====
-- internal/metrics/metrics.go: the vectors of metrics, their registration, and which vector an update of
-- a metric is for. The help texts are left out.
use confluo.Prelude.{ℕ, Text, codes, Option, none, some, List, [], ◌∷◌}
use confluo.World.{
  Metric, events_processed_total, join_success_total, join_latency, state_age, handle_errors_total,
  commit_errors_total, egress_failures_total,
}

-- `prometheus.ExponentialBuckets`, the first of them in thousandths.
pub record Buckets : Type 0 where
  pub first : ℕ
  pub factor : ℕ
  pub number : ℕ

-- A `CounterVec`, or a `HistogramVec` if it has buckets, in the one namespace of the package.
pub record Vec : Type 0 where
  pub name : Text
  pub labels : List Text
  pub buckets : Option Buckets

-- `JoinSuccessTotal`
abbrev pub join_success_vec : Vec
join_success_vec = record {
  name = codes "join_success_total";
  labels = codes "config" ∷ [];
  buckets = none;
}

-- `JoinLatencySeconds`
abbrev pub join_latency_vec : Vec
join_latency_vec = record {
  name = codes "join_latency_seconds";
  labels = codes "config" ∷ [];
  buckets = some (record { first = 1; factor = 2; number = 14 });
}

-- `StateAgeSeconds`
abbrev pub state_age_vec : Vec
state_age_vec = record {
  name = codes "state_age_seconds";
  labels = codes "config" ∷ [];
  buckets = some (record { first = 1000; factor = 2; number = 20 });
}

-- `EventsProcessedTotal`
abbrev pub events_processed_vec : Vec
events_processed_vec = record {
  name = codes "events_processed_total";
  labels = codes "config" ∷ codes "stream" ∷ [];
  buckets = none;
}

-- `HandleErrorsTotal`
abbrev pub handle_errors_vec : Vec
handle_errors_vec = record {
  name = codes "handle_errors_total";
  labels = codes "config" ∷ [];
  buckets = none;
}

-- `CommitErrorsTotal`
abbrev pub commit_errors_vec : Vec
commit_errors_vec = record {
  name = codes "commit_errors_total";
  labels = codes "config" ∷ [];
  buckets = none;
}

-- `EgressFailuresTotal`
abbrev pub egress_failures_vec : Vec
egress_failures_vec = record {
  name = codes "egress_failures_total";
  labels = codes "config" ∷ codes "phase" ∷ [];
  buckets = none;
}

-- `init`
abbrev pub registered : List Vec
registered =
    join_success_vec ∷ join_latency_vec ∷ state_age_vec ∷ events_processed_vec ∷ handle_errors_vec
    ∷ commit_errors_vec ∷ egress_failures_vec ∷ []

-- The vector that an update is for.
abbrev pub vec_of : Metric → Vec
vec_of (events_processed_total config stream) = events_processed_vec
vec_of (join_success_total config) = join_success_vec
vec_of (join_latency config seconds) = join_latency_vec
vec_of (state_age config seconds) = state_age_vec
vec_of (handle_errors_total config) = handle_errors_vec
vec_of (commit_errors_total config) = commit_errors_vec
vec_of (egress_failures_total config phase) = egress_failures_vec
