-- ===== src/Redis.antt =====
-- internal/bloom/redis.go and internal/egress/partial_tracker.go: the Bloom filter of join keys and
-- the set of keys that had a partial egress. Both keep a key's hash as hexadecimal text.
use confluo.Prelude.{ℕ, Text, Bool, codes, is_empty, text_eq, [], if◌then◌else◌}
use confluo.Fault.{Result, ok, err, wrapf}
use confluo.Hex.{encode}
use confluo.World.{
  Codec, ◌>>=◌, attempt, asks, lift, bf_reserve, bf_add, bf_exists, sadd, srem, sismember, Go, wrap,
  command, query,
}

-- The interface `BloomChecker` of the consumer.
pub record BloomChecker : Type 0 where
  pub exists : Text → Go Bool
  pub add : Text → Go (Unit {0})

-- `Filter.Exists`
unfoldable pub bloom_exists : Text → Text → Go Bool
bloom_exists key hash = wrap "bloom exists" (query (bf_exists key (encode hash)))

-- `Filter.Add`
unfoldable pub bloom_add : Text → Text → Go (Unit {0})
bloom_add key hash = wrap "bloom add" (command (bf_add key (encode hash)))

-- A filter that is there already is as good as a new one.
abbrev pub unless_exists : Codec → Result (Unit {0}) → Result (Unit {0})
unless_exists c (ok u) = ok u
unless_exists c (err e) =
    if text_eq (c.error_text e) (codes "ERR item exists")
    then ok tt
    else err (wrapf "bloom reserve" [] e)

-- `Filter.Reserve`, with the error rate in parts of a million.
unfoldable pub bloom_reserve : Text → ℕ → ℕ → Go (Unit {0})
bloom_reserve key capacity error_rate = do
  r ← attempt (command (bf_reserve key error_rate capacity))
  checked ← asks (λ env. ok (unless_exists env.codec r))
  lift checked

-- `bloom.New`: a filter as a `BloomChecker`.
unfoldable pub bloom_filter : Text → BloomChecker
bloom_filter key = record { exists = bloom_exists key; add = bloom_add key }

-- The interfaces `PartialTracker` and `LateArrivalTracker`.
pub record PartialTracker : Type 0 where
  pub add : Text → Go (Unit {0})
  pub contains : Text → Go Bool
  pub remove : Text → Go (Unit {0})

-- `Add`, `Contains` and `Remove`
unfoldable pub tracker_add : Text → Text → Go (Unit {0})
tracker_add key hash = wrap "partial tracker add" (command (sadd key (encode hash)))

unfoldable pub tracker_contains : Text → Text → Go Bool
tracker_contains key hash = wrap "partial tracker contains" (query (sismember key (encode hash)))

unfoldable pub tracker_remove : Text → Text → Go (Unit {0})
tracker_remove key hash = wrap "partial tracker remove" (command (srem key (encode hash)))

abbrev pub default_partial_set_key : Text
default_partial_set_key = codes "omni_joiner:partial"

-- `NewRedisPartialTracker`
unfoldable pub redis_partial_tracker : Text → PartialTracker
redis_partial_tracker set_key =
    let key = if is_empty set_key then default_partial_set_key else set_key in
    record { add = tracker_add key; contains = tracker_contains key; remove = tracker_remove key }
