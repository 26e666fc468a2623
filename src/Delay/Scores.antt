-- ===== src/Delay/Scores.antt =====
-- The scores of the members of a durable delay queue: float64 numbers of nanoseconds.
use confluo.Prelude.{
  ℕ, zero, suc, ◌+◌, ◌*◌, ◌/◌, ◌%◌, ◌^◌, ◌≤◌, ◌<◌, ◌≡◌, ◌∙◌, ap, sym, ltb, Bool-cases, inl, inr,
  arith,
}
use native.Mathlib.Nat.{
  div-add-mod', mod-lt, add-mul, mul_assoc, mul_comm, pow-succ', le-mul_of_pos_right,
}
use mathlib.Core.Path.{subst}
use confluo.Prelude.{Bool, true, false, Text, ◌∷◌, if◌then◌else◌}
use confluo.Fault.{ok}
use confluo.World.{Services, World, commanded, zadd}
use confluo.Delay.Durable.{packed}
use confluo.Delay.{
  Queue, uses_redis, schedule, schedule_redis, count_failure, float_unit, round_even, float64,
}

-- A number is off by at most half a unit.
abbrev IsNear : ℕ → ℕ → ℕ → Type 0
IsNear unit n r = (n * 2 ≤ r * 2 + unit) × (r * 2 ≤ n * 2 + unit)

suc_unit : (q unit : ℕ) → (q + 1) * unit ≡ q * unit + unit
suc_unit q unit = let e = add-mul q 1 unit in omega arith

round_even-IsNear : (unit n : ℕ) → 0 < unit → IsNear unit n (round_even unit n)
unfolding round_even
round_even-IsNear unit n p =
    let d = div-add-mod' n unit in
    let s = suc_unit (n / unit) unit in
    let m : n % unit < unit = mod-lt n p in ground (arith, d, s, m)

-- The unit is doubled at most as often as there is fuel.
pow_pos : (f : ℕ) → 1 ≤ 2 ^ f
pow_pos zero = omega arith
pow_pos (suc f) = let ih = pow_pos f in omega arith

doubled : (unit f : ℕ) → unit * 2 * 2 ^ f ≡ unit * 2 ^ suc f
doubled unit f = mul_assoc unit 2 (2 ^ f) ∙ ap (λ x. unit * x) (sym (pow-succ' 2 f))

float_unit_bounds :
    (f unit n : ℕ) → (unit ≤ float_unit f unit n) × (float_unit f unit n ≤ unit * 2 ^ f)
unfolding float_unit
float_unit_bounds zero unit n = (omega arith, omega arith)
float_unit_bounds (suc f) unit n =
    let (a, b) = float_unit_bounds f (unit * 2) n in
    let e = doubled unit f in
    let l = le-mul_of_pos_right unit (pow_pos (suc f)) in
    elim (Bool-cases (ltb (n / unit) (2 ^ 53))) [
      | inl fits ↦ rw fits (omega arith, l)
      | inr large ↦ rw large (omega arith, omega arith)
    ]

float64_bounds : (at : ℕ) → (at ≤ float64 at + 1024) × (float64 at ≤ at + 1024)
unfolding float64
float64_bounds at =
    let (low, high) = float_unit_bounds 11 1 at in
    let (a, b) = round_even-IsNear (float_unit 11 1 at) at low in (omega arith, omega arith)

-- A power of two, and at most 2^53 times as much is rounded.
abbrev IsUnit : ℕ → ℕ → Type 0
IsUnit n u = ((e : ℕ) × (u ≡ 2 ^ e)) × (n / u < 2 ^ 53)

float_unit-IsUnit :
    (f unit e n : ℕ) → unit ≡ 2 ^ e → n / (unit * 2 ^ f) < 2 ^ 53 → IsUnit n (float_unit f unit n)
unfolding float_unit
float_unit-IsUnit zero unit e n p h =
    ((e, p), subst (λ u. n / u < 2 ^ 53) (let one : unit * 2 ^ 0 ≡ unit = omega arith in one) h)
float_unit-IsUnit (suc f) unit e n p h = elim (Bool-cases (ltb (n / unit) (2 ^ 53))) [
  | inl fits ↦ rw fits ((e, p), ground (arith, fits))
  | inr large ↦ rw large (
      float_unit-IsUnit f (unit * 2) (suc e) n
        (ap (λ u. u * 2) p ∙ (mul_comm (2 ^ e) 2 ∙ sym (pow-succ' 2 e)))
        (subst (λ u. n / u < 2 ^ 53) (sym (doubled unit f)) h))
]

-- A number that a float64 holds: 53 bits and an exponent.
abbrev pub IsFloat : ℕ → Type 0
IsFloat x = (m e : ℕ) × (x ≡ m * 2 ^ e) × (m ≤ 2 ^ 53)

if-IsFloat : (b : Bool) {x y : ℕ} → IsFloat x → IsFloat y → IsFloat (if b then x else y)
if-IsFloat true hx hy = hx
if-IsFloat false hx hy = hy

round_even-IsFloat : (unit n : ℕ) → IsUnit n unit → IsFloat (round_even unit n)
unfolding round_even
round_even-IsFloat unit n ((e, p), h) =
    let q = n / unit in
    let up : IsFloat ((q + 1) * unit) = (q + 1, e, ap (λ u. (q + 1) * u) p, omega arith) in
    let down : IsFloat (q * unit) = (q, e, ap (λ u. q * u) p, omega arith) in if-IsFloat _ down up

float64-IsFloat : (n : ℕ) → n < 2 ^ 63 → IsFloat (float64 n)
unfolding float64
float64-IsFloat n h =
    round_even-IsFloat (float_unit 11 1 n) n
      (float_unit-IsUnit 11 1 0 n (omega arith) (omega arith))

-- When an item is scheduled in a durable queue and its codec prints it: one call is made, a ZADD of
-- the printed item to the queue's set, with a score that a float64 holds and that is off by at
-- most 1024 nanoseconds from the time at which the item is to be published, if this is a time of
-- Go in nanoseconds, below 2^63.
pub schedule_score :
    (env : Services) (q : Queue) (w : World) (hash joined key : Text) (at : ℕ) (member : Text)
    → uses_redis q ≡ true
    → env.codec.marshal_item (packed hash joined key) ≡ ok member
    → at < 2 ^ 63
    → (score : ℕ) × ((schedule q hash joined key at env w).1.history
        ≡ commanded
            (zadd q.redis_key score member)
            (env.command w.history (zadd q.redis_key score member))
          ∷ w.history)
      × IsFloat score
      × (at ≤ score + 1024)
      × (score ≤ at + 1024)
unfolding schedule schedule_redis count_failure
schedule_score env q w hash joined key at member redis m small =
    let (low, high) = float64_bounds at in
    (float64 at, ground (arith, redis, m), float64-IsFloat at small, low, high)
