-- ===== src/Startup/Server.antt =====
-- The probes as `run` of cmd/processor/main.go serves them. That `http.ServeMux` takes a pattern with
-- no slash at its end for one path, and answers 404 for a path without a pattern, is documented; the
-- page of the metrics and the pings of the clients are parameters.
use confluo.Prelude.{
  ℕ, Text, true, false, ◌&&◌, ◌||◌, ◌≡◌, ◌↔◌, Option, none, some, codes, text_eq, text_eq_iff,
  is_some, arith, if◌then◌else◌,
}
use confluo.Fault.{Error, Result, ok, err}
use confluo.Config.{ProcessorConfig}
use confluo.Health.{
  Pinger, Checker, Context, Response, new_checker, with_timeout, serve_http, serve_http_unavailable,
  not_found,
}
use confluo.Processor.{has_redis}

-- The clients of `run`: their pings, and the text of an error.
pub record Clients : Type 0 where
  pub store : Pinger
  pub kafka : Pinger
  pub redis : Context → ℕ → Result Text × ℕ
  pub error_text : Error → Text

abbrev error_of : (Error → Text) → Result Text → Option Text
error_of f (ok status) = none
error_of f (err e) = some (f e)

-- `redisPingerAdapter`: the reply is dropped, its error kept.
abbrev pub redis_pinger : Clients → Pinger
redis_pinger c ctx now = let (r, after) = c.redis ctx now in (error_of c.error_text r, after)

-- `healthChecker`
abbrev pub health_checker : ProcessorConfig → Clients → Checker
health_checker cfg c =
    new_checker (some c.store) (some c.kafka)
      (if has_redis cfg then some (redis_pinger c) else none)

-- `mux`, for the page that `promhttp.Handler` gives to a method.
unfoldable pub serve_mux : (Text → Response) → Checker → Context → ℕ → Text → Text → Response
serve_mux metrics c ctx now method path =
    if text_eq path (codes "/metrics")
    then metrics method
    else if text_eq path (codes "/health")
        || text_eq path (codes "/ready")
        || text_eq path (codes "/live")
    then serve_http c ctx now method path
    else not_found

-- Outside the page of the metrics, the server of the process answers 503 exactly for a GET of /ready
-- when the ping of the store returns an error, or that of Kafka after it, or, if the configuration
-- has an address for Redis, that of Redis after both. The three have one context between them, which
-- ends three seconds after the request, or with the context of the request.
pub serve_mux_unavailable :
    (cfg : ProcessorConfig) (c : Clients) (metrics : Text → Response) (ctx : Context) (now : ℕ)
    (method path : Text)
    → text_eq path (codes "/metrics") ≡ false
    → let limit = with_timeout ctx now 3000000000 in
      let s = c.store limit now in
      let k = c.kafka limit s.1 in
      let r = redis_pinger c limit k.1 in
      (serve_mux metrics (health_checker cfg c) ctx now method path).code ≡ 503 ↔ (
        (text_eq method (codes "GET")
          && text_eq path (codes "/ready")
          && (is_some s.0 || is_some k.0 || (has_redis cfg && is_some r.0)))
        ≡ true)
unfolding serve_mux new_checker
serve_mux_unavailable cfg c metrics ctx now method path elsewhere = ground (
  arith,
  serve_http_unavailable (health_checker cfg c) ctx now method path,
  text_eq_iff path (codes "/ready"),
  text_eq_iff path (codes "/health"),
  text_eq_iff path (codes "/live"),
  elsewhere,
)
