-- ===== src/Health.antt =====
-- internal/health/health.go: liveness and readiness probes.
use confluo.Prelude.{
  ℕ, ◌+◌, leb, Text, true, ◌&&◌, ◌||◌, not, ◌≡◌, ◌↔◌, refl, arith, Option, none, some, List, [],
  ◌∷◌, ◌++◌, is_empty, is_some, codes, text_eq, text_eq_iff, if◌then◌else◌,
}
use confluo.Prelude.Int.{ℤ, pos, is_pos, to_nat}

-- A context, by the moment at which it ends, if there is one.
abbrev pub Context : Type 0
Context = Option ℕ

-- `context.WithTimeout`, called at a moment: the context ends after the duration, or with its parent.
abbrev pub with_timeout : Context → ℕ → ℕ → Context
with_timeout none now d = some (now + d)
with_timeout (some t) now d = some (if leb t (now + d) then t else now + d)

-- `Ping` of a dependency with a context, called at a moment: the text of its error, and the moment at
-- which it returns.
abbrev pub Pinger : Type 0
Pinger = Context → ℕ → Option Text × ℕ

-- `Checker`; `none` stands for a nil interface.
pub record Checker : Type 0 where
  pub store : Option Pinger
  pub kafka : Option Pinger
  pub redis : Option Pinger
  pub timeout : ℤ

-- `NewChecker`: three seconds, in nanoseconds.
unfoldable pub new_checker : Option Pinger → Option Pinger → Option Pinger → Checker
new_checker store kafka redis = record {
  store = store;
  kafka = kafka;
  redis = redis;
  timeout = pos 3000000000;
}

-- The JSON document of a reply: a status, and the failures.
pub record Response : Type 0 where
  pub code : ℕ
  pub status : Text
  pub failures : List Text

-- `http.NotFound`, whose body is plain text.
abbrev pub not_found : Response
not_found = record { code = 404; status = []; failures = [] }

abbrev liveness : Response
liveness = record { code = 200; status = codes "ok"; failures = [] }

-- A nil interface is not called.
abbrev pub reply_of : Option Pinger → Context → ℕ → Option Text × ℕ
reply_of none ctx now = (none, now)
reply_of (some p) ctx now = p ctx now

-- `failures = append(failures, ...)`, for one dependency.
abbrev append_failure : Text → Option Text → List Text → List Text
append_failure name none failures = failures
append_failure name (some e) failures = failures ++ ((name ++ codes ": " ++ e) ∷ [])

-- The one context of the three checks.
abbrev pub check_context : Checker → Context → ℕ → Context
check_context c ctx now = if is_pos c.timeout then with_timeout ctx now (to_nat c.timeout) else ctx

-- The failures, from the replies of the store, Kafka and Redis.
abbrev failures_of : Option Text → Option Text → Option Text → List Text
failures_of s k r =
    append_failure (codes "redis") r
      (append_failure (codes "kafka") k (append_failure (codes "store") s []))

abbrev report : List Text → Response
report failures =
    if is_empty failures
    then record { code = 200; status = codes "ready"; failures = [] }
    else record { code = 503; status = codes "not ready"; failures = failures }

-- `readiness`, with the context of a request, from a moment on: each ping starts when the one before
-- has returned, and all have the same context.
unfoldable pub readiness : Checker → Context → ℕ → Response
readiness c ctx now =
    let limit = check_context c ctx now in
    let s = reply_of c.store limit now in
    let k = reply_of c.kafka limit s.1 in
    let r = reply_of c.redis limit k.1 in report (failures_of s.0 k.0 r.0)

-- `ServeHTTP`, by the context, the moment, the method and the path of a request.
unfoldable pub serve_http : Checker → Context → ℕ → Text → Text → Response
unfolding readiness
serve_http c ctx now method path =
    if not (text_eq method (codes "GET"))
    then not_found
    else if text_eq path (codes "/health") || text_eq path (codes "/live")
    then liveness
    else if text_eq path (codes "/ready")
    then readiness c ctx now
    else not_found

report_code :
    (s k r : Option Text)
    → (report (failures_of s k r)).code ≡ (if is_some s || is_some k || is_some r then 503 else 200)
report_code none none none = refl
report_code none none (some z) = refl
report_code none (some y) none = refl
report_code none (some y) (some z) = refl
report_code (some x) none none = refl
report_code (some x) none (some z) = refl
report_code (some x) (some y) none = refl
report_code (some x) (some y) (some z) = refl

-- The probes answer 503 exactly for a GET of /ready when a ping of a dependency that is there returns
-- an error: that of the store from the moment of the request on, that of Kafka after it, and that of
-- Redis at last, all with the one context that ends when the timeout has passed since the request,
-- or with the context of the request.
pub serve_http_unavailable :
    (c : Checker) (ctx : Context) (now : ℕ) (method path : Text)
    → let limit = check_context c ctx now in
      let s = reply_of c.store limit now in
      let k = reply_of c.kafka limit s.1 in
      let r = reply_of c.redis limit k.1 in
      (serve_http c ctx now method path).code ≡ 503 ↔ (
        (text_eq method (codes "GET")
          && text_eq path (codes "/ready")
          && (is_some s.0 || is_some k.0 || is_some r.0))
        ≡ true)
unfolding serve_http readiness
serve_http_unavailable c ctx now method path =
    let limit = check_context c ctx now in
    let s = reply_of c.store limit now in
    let k = reply_of c.kafka limit s.1 in
    let r = reply_of c.redis limit k.1 in
    ground (
      arith,
      report_code s.0 k.0 r.0,
      text_eq_iff path (codes "/ready"),
      text_eq_iff path (codes "/health"),
      text_eq_iff path (codes "/live"),
    )
