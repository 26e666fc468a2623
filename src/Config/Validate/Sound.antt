-- ===== src/Config/Validate/Sound.antt =====
-- What a valid configuration is.
use confluo.Prelude.{
  ℕ, ◌+◌, Text, Bool, true, false, not, ◌&&◌, ◌||◌, ◌≡◌, ◌↔◌, refl, arith, some, List, [], ◌∷◌, All,
  is_empty, text_eq,
}
use confluo.Prelude.Int.{is_pos}
use confluo.Prelude.Dict.{Dict, lookup, insert, lookup-insert}
use confluo.Fault.{ok}
use confluo.Config.{JoinConfig, ProjectionField}
use confluo.Config.Validate.{
  stream_set, or_false, check_projection, check_fields, is_partial, validate_join_config,
}

unfoldable pub is_in : Text → List Text → Bool
is_in s [] = false
is_in s (t ∷ ts) = text_eq t s || is_in s ts

-- A field of the projection names a stream of the join.
abbrev pub IsPlaced : List Text → ProjectionField → Type 0
IsPlaced streams p = (is_empty p.stream ≡ false) × (is_in p.stream streams ≡ true)

-- The rules that a configuration has to keep.
pub record IsValid (c : JoinConfig) : Type 0 where
  pub has_streams : is_empty c.stream_ids ≡ false
  pub placed : All (IsPlaced c.stream_ids) c.projection
  pub has_key : (is_empty c.key.field && is_empty c.key.fields) ≡ false
  pub named : All (λ f. is_empty f ≡ false) c.key.fields
  pub timed : (is_partial c.egress && not (is_pos c.ttl)) ≡ false

lookup-stream_set :
    (ss : List Text) (m : Dict Bool) (s : Text)
    → or_false (lookup s (stream_set ss m)) ≡ (is_in s ss || or_false (lookup s m))
unfolding stream_set is_in
lookup-stream_set [] m s = refl
lookup-stream_set (t ∷ ts) m s =
    ground (arith, lookup-stream_set ts (insert t true m) s, lookup-insert t s true m)

member_of : (ss : List Text) (s : Text) → or_false (lookup s (stream_set ss [])) ≡ is_in s ss
unfolding lookup
member_of ss s = ground (arith, lookup-stream_set ss [] s)

IsPlaced-check_projection :
    (c : JoinConfig) (i : ℕ) (ps : List ProjectionField)
    → check_projection c i ps ≡ ok tt
    → All (IsPlaced c.stream_ids) ps
unfolding check_projection
IsPlaced-check_projection c i [] e = tt
IsPlaced-check_projection c i (p ∷ ps) e = (
  (ground (arith, e), ground (arith, e, member_of c.stream_ids p.stream)),
  IsPlaced-check_projection c (i + 1) ps (ground (arith, e)),
)

check_projection-IsPlaced :
    (c : JoinConfig) (i : ℕ) (ps : List ProjectionField)
    → All (IsPlaced c.stream_ids) ps
    → check_projection c i ps ≡ ok tt
unfolding check_projection
check_projection-IsPlaced c i [] h = refl
check_projection-IsPlaced c i (p ∷ ps) h = ground (
  arith,
  h.0.0,
  h.0.1,
  member_of c.stream_ids p.stream,
  check_projection-IsPlaced c (i + 1) ps h.1,
)

named-check_fields :
    (name : Text) (i : ℕ) (fs : List Text)
    → check_fields name i fs ≡ ok tt
    → All (λ f. is_empty f ≡ false) fs
unfolding check_fields
named-check_fields name i [] e = tt
named-check_fields name i (f ∷ fs) e =
    (ground (arith, e), named-check_fields name (i + 1) fs (ground (arith, e)))

check_fields-named :
    (name : Text) (i : ℕ) (fs : List Text)
    → All (λ f. is_empty f ≡ false) fs
    → check_fields name i fs ≡ ok tt
unfolding check_fields
check_fields-named name i [] h = refl
check_fields-named name i (f ∷ fs) h = ground (arith, h.0, check_fields-named name (i + 1) fs h.1)

-- The validation passes exactly the configurations that keep the rules: there are streams, every
-- projected field is of one of them, the key has a field or fields and no empty one, and a partial
-- egress has a positive time to live.
pub validate_join_config-IsValid :
    (c : JoinConfig) → validate_join_config (some c) ≡ ok tt ↔ IsValid c
unfolding validate_join_config
validate_join_config-IsValid c = (
  (λ e. record {
    has_streams = ground (arith, e);
    placed = IsPlaced-check_projection c 0 c.projection (ground (arith, e));
    has_key = ground (arith, e);
    named = named-check_fields c.name 0 c.key.fields (ground (arith, e));
    timed = ground (arith, e);
  }),
  (λ v. ground (
    arith,
    v.has_streams,
    check_projection-IsPlaced c 0 c.projection v.placed,
    v.has_key,
    check_fields-named c.name 0 c.key.fields v.named,
    v.timed,
  )),
)
