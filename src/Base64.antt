-- ===== src/Base64.antt =====
-- `encoding/base64.StdEncoding`: four characters for three bytes, padded by `=`.
pub mod RoundTrip
use confluo.Prelude.{
  ℕ, ◌+◌, ◌-◌, ◌*◌, ◌/◌, ◌%◌, Text, Bool, ◌&&◌, ◌||◌, Option, none, some, [], ◌∷◌, ◌++◌, leb, ltb,
  ◌==◌, is_empty, select, not, if◌then◌else◌,
}

unfoldable pub symbol : ℕ → ℕ
symbol n =
    if ltb n 26
    then 65 + n
    else if ltb n 52
    then 71 + n
    else if ltb n 62
    then n - 4
    else if n == 62
    then 43
    else 47

unfoldable pub symbol_value : ℕ → Option ℕ
symbol_value c =
    if leb 65 c && leb c 90
    then some (c - 65)
    else if leb 97 c && leb c 122
    then some (c - 71)
    else if leb 48 c && leb c 57
    then some (c + 4)
    else if c == 43
    then some 62
    else if c == 47
    then some 63
    else none

-- `EncodeToString`
unfoldable pub encode : Text → Text
unfolding symbol
encode [] = []
encode (a ∷ []) = symbol (a / 4) ∷ symbol (a % 4 * 16) ∷ 61 ∷ 61 ∷ []
encode (a ∷ b ∷ []) = symbol (a / 4) ∷ symbol (a % 4 * 16 + b / 16) ∷ symbol (b % 16 * 4) ∷ 61 ∷ []
encode (a ∷ b ∷ c ∷ rest) =
    symbol (a / 4)
    ∷ symbol (a % 4 * 16 + b / 16)
    ∷ symbol (b % 16 * 4 + c / 64)
    ∷ symbol (c % 64)
    ∷ encode rest

-- The bytes of a quantum of four characters; a quantum with a wrong character has none.
abbrev pub one_byte : Option ℕ → Option ℕ → Option Text
one_byte (some w) (some x) = some ((w * 4 + x / 16) ∷ [])
one_byte _ _ = none

abbrev pub two_bytes : Option ℕ → Option ℕ → Option ℕ → Option Text
two_bytes (some w) (some x) (some y) = some ((w * 4 + x / 16) ∷ (x % 16 * 16 + y / 4) ∷ [])
two_bytes _ _ _ = none

abbrev pub three_bytes : Option ℕ → Option ℕ → Option ℕ → Option ℕ → Option Text
three_bytes (some w) (some x) (some y) (some z) =
    some ((w * 4 + x / 16) ∷ (x % 16 * 16 + y / 4) ∷ (y % 4 * 64 + z) ∷ [])
three_bytes _ _ _ _ = none

-- What is decoded of the rest goes behind the bytes of a full quantum.
abbrev pub before : Option Text → Text → Text
before none rest = []
before (some bs) rest = bs ++ rest

abbrev pub or_nothing : Option Text → Text
or_nothing none = []
or_nothing (some bs) = bs

-- The bytes that `DecodeString` returns, its error dropped: decoding stops at the first quantum
-- that is wrong, or padded.
unfoldable pub decode_quanta : Text → Text
unfolding symbol_value
decode_quanta (w ∷ x ∷ y ∷ z ∷ rest) =
    let more = decode_quanta rest in
    if z == 61
    then (if y == 61
        then or_nothing (one_byte (symbol_value w) (symbol_value x))
        else or_nothing (two_bytes (symbol_value w) (symbol_value x) (symbol_value y)))
    else before (three_bytes (symbol_value w) (symbol_value x) (symbol_value y) (symbol_value z))
        more
decode_quanta _ = []

-- Line ends are skipped.
unfoldable pub decode : Text → Text
unfolding decode_quanta
decode s = decode_quanta (select (λ c. not (c == 10 || c == 13)) s)
