-- ===== src/Logger.antt =====
-- internal/logger/logger.go: levels, and what a line has. The mutex and the stream that lines go to
-- are left out.
pub mod Methods
pub mod Global
use confluo.Prelude.{
  ℕ, Text, ◌||◌, ◌≡◌, arith, Option, none, some, List, [], ◌∷◌, is_some, ltb, leb, codes, text_eq,
  if◌then◌else◌,
}
use confluo.Prelude.Dict.{Dict, insert}

abbrev pub level_debug : ℕ
level_debug = 0

abbrev pub level_info : ℕ
level_info = 1

abbrev pub level_warn : ℕ
level_warn = 2

abbrev pub level_error : ℕ
level_error = 3

-- `parseLevel`; `normalise` is `strings.ToLower` after `strings.TrimSpace`.
unfoldable pub parse_level : (Text → Text) → Text → ℕ
parse_level normalise s =
    let t = normalise s in
    if text_eq t (codes "debug")
    then level_debug
    else if text_eq t (codes "info") || text_eq t []
    then level_info
    else if text_eq t (codes "warn") || text_eq t (codes "warning")
    then level_warn
    else if text_eq t (codes "error")
    then level_error
    else level_info

-- A value of `interface{}`: a string, a slice of such values, or something else.
mutual
  pub data Any : Type 0 where
    string : Text → Any
    slice : Anys → Any
    opaque : ℕ → Any

  pub data Anys : Type 0 where
    nil : Anys
    cons : Any → Anys → Anys

-- The pairs that the loops of the writers meet: a last value without a partner is left.
unfoldable pairs : Anys → List (Any × Any)
pairs nil = []
pairs (cons a nil) = []
pairs (cons a (cons b rest)) = (a, b) ∷ pairs rest

-- What the writers take from the standard library: `strings.ToUpper`, `fmt.Sprintf("%v", ...)`, and
-- the time as text.
pub record Formatting : Type 0 where
  pub to_upper : Text → Text
  pub sprint : Any → Text
  pub timestamp : Text

-- A line: its time, level and message with the pairs behind them, or the map that is encoded.
pub data Line : Type 0 where
  text_line : Text → Text → Text → List (Any × Any) → Line
  json_line : Dict Any → Line

abbrev key_text : Formatting → Any → Text
key_text f (string s) = s
key_text f a = f.sprint a

unfoldable put_pairs : Formatting → List (Any × Any) → Dict Any → Dict Any
put_pairs f [] m = m
put_pairs f ((k, v) ∷ rest) m = put_pairs f rest (insert (key_text f k) v m)

unfoldable pub write_text : Formatting → Text → Text → Anys → Line
unfolding pairs
write_text f level msg keyvals = text_line f.timestamp (f.to_upper level) msg (pairs keyvals)

unfoldable pub write_json : Formatting → Text → Text → Anys → Line
unfolding pairs put_pairs
write_json f level msg keyvals = json_line (
    put_pairs f (pairs keyvals) (
      (codes "ts", string f.timestamp)
      ∷ (codes "level", string level)
      ∷ (codes "msg", string msg)
      ∷ []))

-- `impl`
pub record Impl : Type 0 where
  pub level : ℕ
  pub format : Text

-- `New`
unfoldable pub new : ℕ → Text → Impl
new level format = record {
  level = level;
  format = if text_eq format (codes "json") then format else codes "text";
}

-- `log`: the line, if there is one. The slice `keyvals` is passed on as one value.
unfoldable pub log : Formatting → Impl → ℕ → Text → Text → Anys → Option Line
unfolding write_text write_json
log f l level level_str msg keyvals =
    if ltb level l.level
    then none
    else if text_eq l.format (codes "json")
    then some (write_json f level_str msg (cons (slice keyvals) nil))
    else some (write_text f level_str msg (cons (slice keyvals) nil))

-- A line is written exactly when its level is not below the logger's, and it is the same line
-- whatever keys and values are given.
pub log_drops_pairs :
    (f : Formatting) (l : Impl) (level : ℕ) (level_str msg : Text) (keyvals : Anys)
    → (is_some (log f l level level_str msg keyvals) ≡ leb l.level level)
      × (log f l level level_str msg keyvals ≡ log f l level level_str msg nil)
unfolding log
log_drops_pairs f l level level_str msg keyvals = (ground arith, ground arith)
