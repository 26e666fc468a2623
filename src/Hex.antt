-- ===== src/Hex.antt =====
-- `encoding/hex`: two lowercase digits for a byte, and back.
pub mod RoundTrip
use confluo.Prelude.{
  ℕ, ◌+◌, ◌-◌, ◌*◌, ◌/◌, ◌%◌, Text, Bool, ◌&&◌, Option, none, some, [], ◌∷◌, leb, ltb,
  if◌then◌else◌,
}

unfoldable pub digit : ℕ → ℕ
digit n = if ltb n 10 then 48 + n else 87 + n

-- The value of a digit; both cases of letters are read.
unfoldable pub digit_value : ℕ → Option ℕ
digit_value c =
    if leb 48 c && leb c 57
    then some (c - 48)
    else if leb 97 c && leb c 102
    then some (c - 87)
    else if leb 65 c && leb c 70
    then some (c - 55)
    else none

-- `EncodeToString`
unfoldable pub encode : Text → Text
unfolding digit
encode [] = []
encode (b ∷ bs) = digit (b / 16) ∷ digit (b % 16) ∷ encode bs

abbrev pub join_digits : Option ℕ → Option ℕ → Option Text → Option Text
join_digits (some h) (some l) (some rest) = some ((h * 16 + l) ∷ rest)
join_digits _ _ _ = none

-- `DecodeString`: `none` for an odd length or a byte that is no digit.
unfoldable pub decode : Text → Option Text
unfolding digit_value
decode [] = some []
decode (c ∷ []) = none
decode (c ∷ d ∷ rest) = join_digits (digit_value c) (digit_value d) (decode rest)
