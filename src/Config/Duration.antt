-- ===== src/Config/Duration.antt =====
-- `Duration.UnmarshalJSON` of internal/config/config.go.
use confluo.Prelude.{ℕ, Text}
use confluo.Prelude.Int.{ℤ}
use confluo.Fault.{Result, ok, ◌>>=◌}
use confluo.Json.{Value, number, text}

-- `json.Unmarshal` into an `interface{}`, the conversion of a float64, by its bits, to an int64, and
-- `time.ParseDuration`.
pub record Parsers : Type 0 where
  pub unmarshal : Text → Result Value
  pub to_int64 : ℕ → ℤ
  pub parse_duration : Text → Result ℤ

-- A value of another type leaves the duration as it is.
abbrev pub duration_of : Parsers → ℤ → Value → Result ℤ
duration_of p d (number bits) = ok (p.to_int64 bits)
duration_of p d (text s) = p.parse_duration s
duration_of p d _ = ok d

-- The duration `*d` after the call, from the one before it.
unfoldable pub unmarshal_json : Parsers → ℤ → Text → Result ℤ
unmarshal_json p d b = p.unmarshal b >>= duration_of p d
