-- ===== src/Base64/RoundTrip.antt =====
-- Decoding undoes encoding.
use confluo.Prelude.{
  ℕ, ◌+◌, ◌*◌, ◌/◌, ◌%◌, ◌<◌, ◌≡◌, refl, Text, some, [], ◌∷◌, All, arith, select, ◌==◌, ◌||◌, not,
  false, true,
}
use confluo.Base64.{symbol, symbol_value, encode, decode, decode_quanta}

symbol_value-symbol : (n : ℕ) → n < 64 → symbol_value (symbol n) ≡ some n
unfolding symbol symbol_value
symbol_value-symbol n h = ground arith

symbol_plain :
    (n : ℕ)
    → n < 64
    → ((symbol n == 61) ≡ false) × ((symbol n == 10) ≡ false) × ((symbol n == 13) ≡ false)
unfolding symbol
symbol_plain n h = (ground arith, ground arith, ground arith)

abbrev pub IsBytes : Text → Type 0
IsBytes = All (λ b. b < 256)

-- No line end stands in an encoding.
abbrev IsKept : ℕ → Type 0
IsKept c = not (c == 10 || c == 13) ≡ true

keep :
    (x : ℕ)
    → IsKept x
    → (xs : Text)
    → select (λ c. not (c == 10 || c == 13)) (x ∷ xs)
      ≡ x ∷ select (λ c. not (c == 10 || c == 13)) xs
unfolding select
keep x h xs = rw h

symbol-IsKept : (n : ℕ) → n < 64 → IsKept (symbol n)
unfolding symbol
symbol-IsKept n h = ground arith

-- The four characters of three bytes.
sextets :
    (a b c : ℕ)
    → a < 256
    → b < 256
    → c < 256
    → (a / 4 < 64)
      × (a % 4 * 16 + b / 16 < 64)
      × (b % 16 * 4 + c / 64 < 64)
      × (c % 64 < 64)
      × (a % 4 * 16 < 64)
      × (b % 16 * 4 < 64)
sextets a b c x y z = (omega arith, omega arith, omega arith, omega arith, omega arith, omega arith)

first_byte : (a b : ℕ) → b < 256 → (a / 4) * 4 + (a % 4 * 16 + b / 16) / 16 ≡ a
first_byte a b h = omega arith

second_byte :
    (a b c : ℕ)
    → b < 256
    → c < 256
    → (a % 4 * 16 + b / 16) % 16 * 16 + (b % 16 * 4 + c / 64) / 4 ≡ b
second_byte a b c h k = omega arith

third_byte : (b c : ℕ) → c < 256 → (b % 16 * 4 + c / 64) % 4 * 64 + c % 64 ≡ c
third_byte b c h = omega arith

abbrev kept : Text → Text
kept = select (λ c. not (c == 10 || c == 13))

kept-encode : (bs : Text) → IsBytes bs → kept (encode bs) ≡ encode bs
unfolding encode select
kept-encode [] h = refl
kept-encode (a ∷ []) h =
    let s = sextets a 0 0 h.0 (omega arith) (omega arith) in
    rw (symbol-IsKept (a / 4) s.0, symbol-IsKept (a % 4 * 16) s.4)
kept-encode (a ∷ b ∷ []) h =
    let s = sextets a b 0 h.0 h.1.0 (omega arith) in
    rw (
      symbol-IsKept (a / 4) s.0,
      symbol-IsKept (a % 4 * 16 + b / 16) s.1,
      symbol-IsKept (b % 16 * 4) s.5,
    )
kept-encode (a ∷ b ∷ c ∷ rest) h =
    let s = sextets a b c h.0 h.1.0 h.1.1.0 in
    rw (
      symbol-IsKept (a / 4) s.0,
      symbol-IsKept (a % 4 * 16 + b / 16) s.1,
      symbol-IsKept (b % 16 * 4 + c / 64) s.2,
      symbol-IsKept (c % 64) s.3,
      kept-encode rest h.1.1.1,
    )

quanta-encode : (bs : Text) → IsBytes bs → decode_quanta (encode bs) ≡ bs
unfolding encode decode_quanta
quanta-encode [] h = refl
quanta-encode (a ∷ []) h =
    let s = sextets a 0 0 h.0 (omega arith) (omega arith) in
    ground (
      arith,
      symbol_value-symbol (a / 4) s.0,
      symbol_value-symbol (a % 4 * 16) s.4,
      symbol_plain (a % 4 * 16) s.4,
    )
quanta-encode (a ∷ b ∷ []) h =
    let s = sextets a b 0 h.0 h.1.0 (omega arith) in
    ground (
      arith,
      symbol_value-symbol (a / 4) s.0,
      symbol_value-symbol (a % 4 * 16 + b / 16) s.1,
      symbol_value-symbol (b % 16 * 4) s.5,
      (symbol_plain (b % 16 * 4) s.5).0,
      first_byte a b h.1.0,
      second_byte a b 0 h.1.0 (omega arith),
    )
quanta-encode (a ∷ b ∷ c ∷ rest) h =
    let s = sextets a b c h.0 h.1.0 h.1.1.0 in
    rw (
      (symbol_plain (c % 64) s.3).0,
      symbol_value-symbol (a / 4) s.0,
      symbol_value-symbol (a % 4 * 16 + b / 16) s.1,
      symbol_value-symbol (b % 16 * 4 + c / 64) s.2,
      symbol_value-symbol (c % 64) s.3,
      quanta-encode rest h.1.1.1,
      first_byte a b h.1.0,
      second_byte a b c h.1.0 h.1.1.0,
      third_byte b c h.1.1.0,
    )

-- Decoding the base64 text of a sequence of bytes, each below 256, gives the bytes back.
pub decode-encode : (bs : Text) → IsBytes bs → decode (encode bs) ≡ bs
unfolding decode
decode-encode bs h = rw (kept-encode bs h) (quanta-encode bs h)
