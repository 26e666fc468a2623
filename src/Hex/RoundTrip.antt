-- ===== src/Hex/RoundTrip.antt =====
-- Decoding undoes encoding.
use confluo.Prelude.{ℕ, ◌+◌, ◌*◌, ◌/◌, ◌%◌, ◌<◌, ◌≡◌, refl, ap, Text, some, [], ◌∷◌, All, arith}
use confluo.Hex.{digit, digit_value, encode, decode}

abbrev pub IsBytes : Text → Type 0
IsBytes = All (λ b. b < 256)

digit_value-digit : (n : ℕ) → n < 16 → digit_value (digit n) ≡ some n
unfolding digit digit_value
digit_value-digit n h = ground arith

join_halves : (b : ℕ) → (b / 16) * 16 + b % 16 ≡ b
join_halves b = omega arith

-- Decoding the hexadecimal text of a sequence of bytes, each below 256, gives the bytes back.
pub decode-encode : (bs : Text) → IsBytes bs → decode (encode bs) ≡ some bs
unfolding encode decode
decode-encode [] h = refl
decode-encode (b ∷ bs) h =
    rw
      (
        digit_value-digit (b / 16) (omega arith),
        digit_value-digit (b % 16) (omega arith),
        decode-encode bs h.1,
      )
      (ap (λ (x : ℕ). some (x ∷ bs)) (join_halves b))
