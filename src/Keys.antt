-- ===== src/Keys.antt =====
-- internal/keys/hash.go: the hash of a join key, from one field or from several.
pub mod Sorting
pub mod Order
pub mod Partition
use confluo.Prelude.{Text, codes, List, [], ◌∷◌, is_empty, if◌then◌else◌}
use confluo.Prelude.Dict.{Dict, lookup, insert}
use confluo.Fault.{ok, err, Result}
use confluo.Json.{Object, Value}
use confluo.World.{Codec}
use confluo.Keys.Sorting.{sort}
use confluo.Prelude.{Option, none, some}

-- A hash and the text that it was made from.
pub record JoinKey : Type 0 where
  pub hash : Text
  pub raw : Text

-- `HashRaw`
unfoldable pub hash_raw : Codec → Text → Text
hash_raw c raw = c.sha256 raw

abbrev pub put_found : Text → Option Value → Object → Object
put_found k none m = m
put_found k (some v) m = insert k v m

-- `for _, f := range fields { if v, ok := values[f]; ok { m[f] = v } }`, into a map so far.
unfoldable pub copy_fields : List Text → Object → Object → Object
copy_fields [] values m = m
copy_fields (f ∷ fs) values m = copy_fields fs values (put_found f (lookup f values) m)

unfoldable pub names : Object → List Text
names [] = []
names ((k, v) ∷ m) = k ∷ names m

-- An error of the codec gives the empty string.
abbrev pub or_blank : Result Text → Text
or_blank (ok s) = s
or_blank (err e) = codes ""

-- `serializeComposite`
unfoldable pub serialize_composite : Codec → Object → Text
unfolding copy_fields names
serialize_composite c m =
    if is_empty m then codes "" else or_blank (c.marshal (copy_fields (sort (names m)) m []))

-- `CompositeKey`
unfoldable pub composite_key : Codec → Text → Object → JoinKey
unfolding hash_raw serialize_composite
composite_key c one composite =
    if is_empty one
    then (let raw = serialize_composite c composite in record { hash = hash_raw c raw; raw = raw })
    else record { hash = hash_raw c one; raw = one }

-- `KeyFromFields`
unfoldable pub key_from_fields : Codec → List Text → Object → JoinKey
unfolding composite_key
key_from_fields c fields values = composite_key c (codes "") (copy_fields fields values [])
