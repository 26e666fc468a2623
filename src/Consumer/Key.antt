-- ===== src/Consumer/Key.antt =====
-- `extractKey` of internal/consumer/consumer.go.
use confluo.Prelude.{Text, Option, none, some, [], is_empty, if◌then◌else◌}
use confluo.Prelude.Dict.{lookup}
use confluo.Fault.{Result, ok, ◌>>=◌}
use confluo.Json.{Object, entry_as_string}
use confluo.Config.{KeyDef}
use confluo.Projection.{or_empty}
use confluo.World.{Codec}
use confluo.Keys.{JoinKey, composite_key, key_from_fields}

-- The bytes of a slice; a nil slice has none.
abbrev pub bytes_of : Option Text → Text
bytes_of none = []
bytes_of (some v) = v

-- The join key of a decoded payload.
unfoldable pub key_of : Codec → KeyDef → Object → JoinKey
unfolding composite_key key_from_fields
key_of c k m =
    if is_empty k.field
    then key_from_fields c k.fields m
    else composite_key c (entry_as_string (lookup k.field m)) []

unfoldable pub extract_key : Codec → KeyDef → Option Text → Result JoinKey
unfolding key_of
extract_key c k payload = c.unmarshal (bytes_of payload) >>= λ m. ok (key_of c k (or_empty m))
