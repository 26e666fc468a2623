-- ===== src/Tests/Probes.antt =====
-- A probe of a processor whose Redis is down, and a logged error.
use confluo.Prelude.{◌&&◌, ◌||◌, ◌≡◌, ◌↔◌, codes, none, some, [], is_some, leb, text_eq, true}
use confluo.Health.{
  Checker, Pinger, new_checker, serve_http, check_context, reply_of, with_timeout,
  serve_http_unavailable,
}
use confluo.Logger.Methods.{methods, new_from_env, new_from_env_severity}
use confluo.Logger.Global.{from_env, makes, or_global, global_after, or_global_errors}
use confluo.Startup.Server.{Clients, serve_mux, health_checker, redis_pinger, serve_mux_unavailable}
use confluo.Health.{Response}
use confluo.Prelude.{◌+◌, if◌then◌else◌}
use confluo.Prelude.{Text, ◌∷◌, refl}
use confluo.Fault.{err, external}
use confluo.Processor.{has_redis}
use confluo.Tests.Lab.{settings}
use confluo.Logger.{
  Formatting, Anys, nil, cons, string, opaque, new, log, level_warn, level_error, log_drops_pairs,
}

-- A store that takes two seconds, and a Kafka that wants two more: the context ends before.
abbrev slow : Pinger
slow limit now = (none, now + 2000000000)

abbrev late : Pinger
late none now = (none, now + 2000000000)
late (some t) now =
    if leb (now + 2000000000) t then (none, now + 2000000000) else (some (codes "timeout"), t)

abbrev slow_checker : Checker
slow_checker = new_checker (some slow) (some late) none

slow_kafka : (serve_http slow_checker none 0 (codes "GET") (codes "/ready")).code ≡ 503
unfolding serve_http new_checker text_eq
slow_kafka = refl

serve_http_unavailable_example :
    let limit = check_context slow_checker none 0 in
    let s = reply_of slow_checker.store limit 0 in
    let k = reply_of slow_checker.kafka limit s.1 in
    let r = reply_of slow_checker.redis limit k.1 in
    (serve_http slow_checker none 0 (codes "GET") (codes "/ready")).code ≡ 503 ↔ (
      (text_eq (codes "GET") (codes "GET")
        && text_eq (codes "/ready") (codes "/ready")
        && (is_some s.0 || is_some k.0 || is_some r.0))
      ≡ true)
serve_http_unavailable_example =
    serve_http_unavailable slow_checker none 0 (codes "GET") (codes "/ready")

abbrev plain : Formatting
plain = record { to_upper = λ s. s; sprint = λ a. codes "?"; timestamp = codes "now" }

abbrev two_values : Anys
two_values = cons (string (codes "error")) (cons (opaque 7) nil)

log_drops_pairs_example :
    (is_some (
        log plain
          (new level_warn (codes "json"))
          level_error
          (codes "error")
          (codes "failed")
          two_values)
      ≡ leb (new level_warn (codes "json")).level level_error)
    × (log plain
          (new level_warn (codes "json"))
          level_error
          (codes "error")
          (codes "failed")
          two_values
        ≡ log plain
            (new level_warn (codes "json"))
            level_error
            (codes "error")
            (codes "failed")
            nil)
log_drops_pairs_example =
    log_drops_pairs plain (new level_warn (codes "json")) level_error (codes "error")
      (codes "failed") two_values

-- LOG_LEVEL is "warn", and LOG_FORMAT is not set.
new_from_env_severity_example :
    (is_some (
        (methods plain (new_from_env (λ s. s) (codes "warn") [])).error (codes "failed") two_values)
      ≡ true)
    × (is_some (
            (methods plain (new_from_env (λ s. s) (codes "warn") [])).debug
              (codes "failed")
              two_values)
          || is_some (
              (methods plain (new_from_env (λ s. s) (codes "warn") [])).info
                (codes "failed")
                two_values)
        ≡ is_some (
            (methods plain (new_from_env (λ s. s) (codes "warn") [])).info
              (codes "failed")
              two_values))
    × (is_some (
            (methods plain (new_from_env (λ s. s) (codes "warn") [])).info
              (codes "failed")
              two_values)
          || is_some (
              (methods plain (new_from_env (λ s. s) (codes "warn") [])).warn
                (codes "failed")
                two_values)
        ≡ is_some (
            (methods plain (new_from_env (λ s. s) (codes "warn") [])).warn
              (codes "failed")
              two_values))
new_from_env_severity_example =
    new_from_env_severity (λ s. s) (codes "warn") [] plain (codes "failed") two_values

-- `New` with a level above all messages comes last.
or_global_errors_example :
    is_some (
      (methods plain (
          or_global
            (global_after (λ s. s) (makes 9 [] ∷ from_env (codes "warn") [] ∷ []))
            none)).error
        (codes "failed")
        two_values)
    ≡ true
or_global_errors_example =
    or_global_errors (λ s. s) (makes 9 [] ∷ from_env (codes "warn") [] ∷ []) plain (codes "failed")
      two_values

abbrev clients : Clients
clients = record {
  store = slow;
  kafka = λ limit now. (none, now);
  redis = λ limit now. (err (external 4), now);
  error_text = λ e. codes "refused";
}

abbrev page : Text → Response
page method = record { code = 200; status = []; failures = [] }

serve_mux_unavailable_example :
    let limit = with_timeout none 7 3000000000 in
    let s = clients.store limit 7 in
    let k = clients.kafka limit s.1 in
    let r = redis_pinger clients limit k.1 in
    (serve_mux page (health_checker settings clients) none 7 (codes "GET") (codes "/ready")).code
      ≡ 503
    ↔ ((text_eq (codes "GET") (codes "GET")
          && text_eq (codes "/ready") (codes "/ready")
          && (is_some s.0 || is_some k.0 || (has_redis settings && is_some r.0)))
        ≡ true)
unfolding text_eq
serve_mux_unavailable_example =
    serve_mux_unavailable settings clients page none 7 (codes "GET") (codes "/ready") refl
