-- ===== src/Projection/Order.antt =====
-- The output of a projection does not depend on the order in which the streams are read.
use confluo.Prelude.{
  Text, ◌≡◌, refl, sym, ◌∙◌, ap, Option, none, some, List, [], ◌∷◌, inl, inr, Bool-cases, text_eq,
  text_eq_iff, text_eq_refl, arith,
}
use confluo.Prelude.Dict.{Dict, lookup, insert, lookup-insert}
use confluo.Fault.{Result, ok, err, Result-cases}
use confluo.Json.{Object}
use confluo.Config.{ProjectionField}
use confluo.World.{Codec}
use confluo.Projection.{or_empty, decode_streams, project_fields, apply, field_of, put_output}
use confluo.Projection.Total.{Decodes, AllDecode, decode_streams_ok}

-- No key stands twice: what makes an association list a map.
abbrev pub AreDistinct : {V : Type 0} → Dict V → Type 0
AreDistinct [] = Unit
AreDistinct ((k, v) ∷ m) = (lookup k m ≡ none) × AreDistinct m

abbrev pub SameMap : {V : Type 0} → Dict V → Dict V → Type 0
SameMap m n = (k : Text) → lookup k m ≡ lookup k n

pub insert-AreDistinct : (s p : Text) (d : Dict Text) → AreDistinct d → AreDistinct (insert s p d)
unfolding insert lookup
insert-AreDistinct s p [] h = (refl, tt)
insert-AreDistinct s p ((j, w) ∷ d) h = elim (Bool-cases (text_eq j s)) [
  | inl same ↦ rw same h
  | inr other ↦ rw other (
    ground (arith, lookup-insert s j p d, text_eq_iff s j, text_eq_iff j s, other, h.0),
    insert-AreDistinct s p d h.1,
  )
]

pub insert-SameMap :
    (s p : Text) (d e : Dict Text) → SameMap d e → SameMap (insert s p d) (insert s p e)
insert-SameMap s p d e h k = ground (arith, lookup-insert s k p d, lookup-insert s k p e, h k)

module _ (c : Codec) where
  abbrev decoded_or : Result (Option Object) → Object
  decoded_or (ok m) = or_empty m
  decoded_or (err e) = []

  abbrev entry : Option Text → Option Object → Option Object
  entry none before = before
  entry (some raw) before = some (decoded_or (c.unmarshal raw))

  lookup-decode_streams :
      (parts : Dict Text) (acc d : Dict Object) (k : Text)
      → AreDistinct parts
      → decode_streams c parts acc ≡ ok d
      → lookup k d ≡ entry (lookup k parts) (lookup k acc)
  unfolding decode_streams lookup
  lookup-decode_streams [] acc d k h e = ground arith
  lookup-decode_streams ((s, raw) ∷ rest) acc d k h e = elim (Result-cases (c.unmarshal raw)) [
    | inl (m, u) ↦
        let ih = lookup-decode_streams rest (insert s (or_empty m) acc) d k h.1 (rw u at e) in
        ground (arith, u, ih, lookup-insert s k (or_empty m) acc, text_eq_iff s k, h.0)
    | inr (x, u) ↦ ground (arith, u)
  ]

  AllDecode-decode_streams :
      (parts : Dict Text) (acc d : Dict Object)
      → decode_streams c parts acc ≡ ok d
      → AllDecode c parts
  unfolding decode_streams
  AllDecode-decode_streams [] acc d e = tt
  AllDecode-decode_streams ((s, raw) ∷ rest) acc d e = elim (Result-cases (c.unmarshal raw)) [
    | inl (m, u) ↦ ((m, u), AllDecode-decode_streams rest (insert s (or_empty m) acc) d (rw u at e))
    | inr (x, u) ↦ absurd (ground (arith, u))
  ]

  Decodes-lookup :
      (parts : Dict Text) (k raw : Text)
      → AllDecode c parts
      → lookup k parts ≡ some raw
      → Decodes c raw
  unfolding lookup
  Decodes-lookup [] k raw h e = cc
  Decodes-lookup ((s, r) ∷ rest) k raw h e = elim (Bool-cases (text_eq s k)) [
    | inl same ↦ let e' : r ≡ raw = ground (arith, same) in rw (← e') h.0
    | inr other ↦ Decodes-lookup rest k raw h.1 (rw other at e)
  ]

  AllDecode-lookup :
      (parts : Dict Text)
      → AreDistinct parts
      → ((k raw : Text) → lookup k parts ≡ some raw → Decodes c raw)
      → AllDecode c parts
  unfolding lookup
  AllDecode-lookup [] d h = tt
  AllDecode-lookup ((s, r) ∷ rest) d h = (
    h s r (rw (text_eq_refl s)),
    AllDecode-lookup rest d.1 (λ k raw e. h k raw (ground (arith, e, d.0, text_eq_iff s k))),
  )

  project_fields-eq :
      (proj : List ProjectionField) (d d' : Dict Object) (out : Object)
      → SameMap d d'
      → project_fields proj d out ≡ project_fields proj d' out
  unfolding project_fields
  project_fields-eq [] d d' out h = refl
  project_fields-eq (p ∷ ps) d d' out h = rw (h p.stream) (
      project_fields-eq ps d d' (put_output p.output (field_of (lookup p.stream d') p.field) out) h)

  -- Two association lists without duplicate keys and with the same entries, in any order: if the
  -- projection of one succeeds, that of the other succeeds with the same bytes.
  pub apply_order :
      (parts parts' : Dict Text) (proj : List ProjectionField) (out : Text)
      → AreDistinct parts
      → AreDistinct parts'
      → SameMap parts parts'
      → apply c parts proj ≡ ok out
      → apply c parts' proj ≡ ok out
  unfolding apply lookup
  apply_order parts parts' proj out u u' same h = elim (Result-cases (decode_streams c parts [])) [
    | inr (x, e) ↦ absurd (ground (arith, e))
    | inl (d, e) ↦
        let all = AllDecode-decode_streams parts [] d e in
        let all' =
          AllDecode-lookup parts' u' (λ k raw f. Decodes-lookup parts k raw all (same k ∙ f)) in
        let (d', e') = decode_streams_ok c parts' [] all' in
        let agree : SameMap d d' = λ k.
          lookup-decode_streams parts [] d k u e
          ∙ ap (λ o. entry o none) (same k)
          ∙ sym (lookup-decode_streams parts' [] d' k u' e') in
        rw e' (rw (← (project_fields-eq proj d d' [] agree)) (rw e at h))
  ]
