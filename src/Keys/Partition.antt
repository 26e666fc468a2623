-- ===== src/Keys/Partition.antt =====
-- `HashToPartition`: from the first eight bytes of a hash to a partition.
use confluo.Prelude.{
  ◌≤◌, ◌<◌, ◌≡◌, arith, lt→ltb, ℕ, ◌+◌, ◌-◌, ◌*◌, ◌%◌, ◌^◌, Text, Option, none, some, ◌∷◌, ltb,
  if◌then◌else◌,
}
use confluo.Prelude.Int.{ℤ, pos, negsuc}

-- `binary.BigEndian.Uint64(hash[:8])`: the slice panics on a shorter hash, which is `none`.
unfoldable pub big_endian_uint64 : Text → Option ℕ
big_endian_uint64 (a ∷ b ∷ c ∷ d ∷ e ∷ f ∷ g ∷ h ∷ rest) =
    some (((((((a * 256 + b) * 256 + c) * 256 + d) * 256 + e) * 256 + f) * 256 + g) * 256 + h)
big_endian_uint64 _ = none

-- `int32(x)` of an unsigned number.
unfoldable pub to_int32 : ℕ → ℤ
to_int32 x = let r = x % 2 ^ 32 in if ltb r (2 ^ 31) then pos r else negsuc (2 ^ 32 - r - 1)

abbrev pub partition_of : Option ℕ → ℕ → Option ℤ
partition_of none n = none
partition_of (some u) n = some (to_int32 (u % n))

unfoldable pub hash_to_partition : Text → ℤ → Option ℤ
unfolding big_endian_uint64 to_int32
hash_to_partition hash (negsuc n) = some (pos 0)
hash_to_partition hash (pos n) =
    if ltb 0 n then partition_of (big_endian_uint64 hash) n else some (pos 0)

partition_of_bounds :
    (u n : ℕ) → 0 < n → n ≤ 2 ^ 31 → (p : ℕ) × (partition_of (some u) n ≡ some (pos p)) × (p < n)
unfolding to_int32
partition_of_bounds u n h k =
    let low : u % n < n = omega arith in
    let small : u % n % 4294967296 ≡ u % n = omega arith in (u % n, ground (arith, small), low)

-- With between one and 2^31 partitions, a hash of eight bytes or more has a partition, and its
-- index is in range: the conversion to int32 does not make it negative.
pub hash_to_partition_bounds :
    (a b c d e f g h : ℕ) (rest : Text) (n : ℕ)
    → 0 < n
    → n ≤ 2 ^ 31
    → (p : ℕ) × (hash_to_partition (a ∷ b ∷ c ∷ d ∷ e ∷ f ∷ g ∷ h ∷ rest) (pos n) ≡ some (pos p))
      × (p < n)
unfolding hash_to_partition
hash_to_partition_bounds a b c d e f g h rest n low high =
    let (p, e', l) =
      partition_of_bounds
        (((((((a * 256 + b) * 256 + c) * 256 + d) * 256 + e) * 256 + f) * 256 + g) * 256 + h) n low
        high in
    (p, rw (lt→ltb 0 n low) e', l)
