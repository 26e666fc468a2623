-- ===== src/Projection.antt =====
-- internal/projection/project.go: the output document of a join.
pub mod Order
pub mod Map
pub mod Total
use confluo.Prelude.{Text, Option, none, some, List, [], ◌∷◌}
use confluo.Prelude.Dict.{Dict, lookup, insert}
use confluo.Fault.{Result, ok, ◌>>=◌}
use confluo.Json.{Object, Value}
use confluo.Config.{ProjectionField}
use confluo.World.{Codec}

-- Reading a nil map is reading an empty one.
abbrev pub or_empty : Option Object → Object
or_empty none = []
or_empty (some m) = m

-- The first loop, over `participantData`, into the map `streamDecoded` so far.
unfoldable pub decode_streams : Codec → Dict Text → Dict Object → Result (Dict Object)
decode_streams c [] decoded = ok decoded
decode_streams c ((stream, raw) ∷ rest) decoded =
    c.unmarshal raw >>= λ m. decode_streams c rest (insert stream (or_empty m) decoded)

-- `streamData, ok := streamDecoded[p.Stream]` and `v, ok := streamData[p.Field]`
abbrev pub field_of : Option Object → Text → Option Value
field_of none f = none
field_of (some m) f = lookup f m

abbrev pub put_output : Text → Option Value → Object → Object
put_output k none out = out
put_output k (some v) out = insert k v out

-- The second loop, over `proj`, into the map `out` so far.
unfoldable pub project_fields : List ProjectionField → Dict Object → Object → Object
project_fields [] decoded out = out
project_fields (p ∷ ps) decoded out =
    project_fields ps decoded (put_output p.output (field_of (lookup p.stream decoded) p.field) out)

-- `Apply`
unfoldable pub apply : Codec → Dict Text → List ProjectionField → Result Text
unfolding decode_streams project_fields
apply c participants proj =
    decode_streams c participants [] >>= λ decoded. c.marshal (project_fields proj decoded [])
