-- ===== src/Config/Validate.antt =====
-- `ValidateJoinConfig`
pub mod Sound
use confluo.Prelude.{
  ℕ, String, ◌+◌, Text, Bool, true, false, not, ◌&&◌, Option, none, some, List, [], ◌∷◌, is_empty,
  codes, text_eq, if◌then◌else◌,
}
use confluo.Prelude.Int.{ℤ, is_pos}
use confluo.Prelude.Dict.{Dict, lookup, insert}
use confluo.Fault.{Result, ok, err, errorf, Arg, text, int, texts, ◌>>=◌}
use confluo.Config.{EgressPolicy, inner, partial, other, ProjectionField, KeyDef, JoinConfig}

-- The map `streamSet`, from what is in it so far.
unfoldable stream_set : List Text → Dict Bool → Dict Bool
stream_set [] m = m
stream_set (s ∷ ss) m = stream_set ss (insert s true m)

-- A missing key reads as false.
abbrev or_false : Option Bool → Bool
or_false none = false
or_false (some b) = b

abbrev fail_if : Bool → Text → String → List Arg → Result (Unit {0})
fail_if c name format args = if c then err (errorf format (text name ∷ args)) else ok tt

-- The loop over the projection, from an index.
unfoldable check_projection : JoinConfig → ℕ → List ProjectionField → Result (Unit {0})
unfolding stream_set
check_projection c i [] = ok tt
check_projection c i (p ∷ ps) =
    let rest = check_projection c (i + 1) ps in
    fail_if (is_empty p.stream) c.name "join config %q: projection[%d] has empty stream"
      (int i ∷ [])
    >>= λ _.
        fail_if (not (or_false (lookup p.stream (stream_set c.stream_ids [])))) c.name
          "join config %q: projection[%d] stream %q is not in stream_ids %v"
          (int i ∷ text p.stream ∷ texts c.stream_ids ∷ [])
        >>= λ _. rest

-- The loop over the fields of the key, from an index.
unfoldable check_fields : Text → ℕ → List Text → Result (Unit {0})
check_fields name i [] = ok tt
check_fields name i (f ∷ fs) =
    let rest = check_fields name (i + 1) fs in
    fail_if (is_empty f) name "join config %q: key.fields[%d] must be non-empty" (int i ∷ [])
    >>= λ _. rest

abbrev pub is_partial : EgressPolicy → Bool
is_partial partial = true
is_partial inner = false
is_partial (other p) = false

unfoldable pub validate_join_config : Option JoinConfig → Result (Unit {0})
unfolding check_projection check_fields
validate_join_config none = err (errorf "join config is nil" [])
validate_join_config (some c) =
    fail_if (is_empty c.stream_ids) c.name "join config %q: stream_ids must be non-empty" []
    >>= λ _. check_projection c 0 c.projection >>= λ _.
        fail_if (is_empty c.key.field && is_empty c.key.fields) c.name
          "join config %q: key must have field or fields" []
        >>= λ _. check_fields c.name 0 c.key.fields >>= λ _.
            fail_if (is_partial c.egress && not (is_pos c.ttl)) c.name
              "join config %q: egress partial requires ttl > 0" []
