-- ===== src/Logger/Methods.antt =====
-- `NewFromEnv`, `Nop` and the methods of the `Logger` interface of internal/logger/logger.go.
use confluo.Prelude.{Text, true, ◌||◌, ◌≡◌, ◌≤◌, codes, Option, none, is_some, arith}
use confluo.Logger
use confluo.Logger.{
  Impl, Formatting, Line, Anys, parse_level, log, log_drops_pairs, level_debug, level_info,
  level_warn, level_error,
}

-- The interface `Logger`: each method writes at most one line.
pub record Methods : Type 0 where
  pub debug : Text → Anys → Option Line
  pub info : Text → Anys → Option Line
  pub warn : Text → Anys → Option Line
  pub error : Text → Anys → Option Line

-- `Debug`, `Info`, `Warn` and `Error` of `impl`.
unfoldable pub methods : Formatting → Impl → Methods
methods f l = record {
  debug = log f l level_debug (codes "debug");
  info = log f l level_info (codes "info");
  warn = log f l level_warn (codes "warn");
  error = log f l level_error (codes "error");
}

-- `Nop`
abbrev pub nop : Methods
nop = record {
  debug = λ msg keyvals. none;
  info = λ msg keyvals. none;
  warn = λ msg keyvals. none;
  error = λ msg keyvals. none;
}

-- `NewFromEnv`, for the two variables; `normalise` is `strings.ToLower` after `strings.TrimSpace`.
unfoldable pub new_from_env : (Text → Text) → Text → Text → Impl
new_from_env normalise log_level log_format =
    Logger.new (parse_level normalise log_level) (normalise log_format)

module _ (normalise : Text → Text) (log_level log_format : Text) where
  abbrev pub made : Impl
  made = new_from_env normalise log_level log_format

  pub level_le : made.level ≤ level_error
  unfolding new_from_env Logger.new parse_level
  level_le = ground arith

  -- A logger that is made from any environment writes every error, and where one of its methods
  -- writes a line, so does the next more severe one.
  pub new_from_env_severity :
      (f : Formatting) (msg : Text) (keyvals : Anys)
      → (is_some ((methods f made).error msg keyvals) ≡ true)
        × (is_some ((methods f made).debug msg keyvals)
              || is_some ((methods f made).info msg keyvals)
            ≡ is_some ((methods f made).info msg keyvals))
        × (is_some ((methods f made).info msg keyvals)
              || is_some ((methods f made).warn msg keyvals)
            ≡ is_some ((methods f made).warn msg keyvals))
  unfolding methods
  new_from_env_severity f msg keyvals =
      let le = level_le in
      let d = (log_drops_pairs f made level_debug (codes "debug") msg keyvals).0 in
      let i = (log_drops_pairs f made level_info (codes "info") msg keyvals).0 in
      let w = (log_drops_pairs f made level_warn (codes "warn") msg keyvals).0 in
      let e = (log_drops_pairs f made level_error (codes "error") msg keyvals).0 in
      (ground (arith, e, le), ground (arith, d, i), ground (arith, i, w))
