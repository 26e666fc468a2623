-- ===== src/Projection/Total.antt =====
-- A projection succeeds on payloads that decode.
use confluo.Prelude.{
  Text, false, ◌≡◌, refl, Option, List, [], ◌∷◌, All, is_empty, Bool-cases, inl, inr, text_eq,
}
use confluo.Prelude.Dict.{Dict, insert}
use confluo.Fault.{ok}
use confluo.Json.{Object}
use confluo.Config.{ProjectionField}
use confluo.World.{Codec}
use confluo.World.Views.{IsJson}
use confluo.Projection.{or_empty, decode_streams, project_fields, apply}

-- `json.Unmarshal` takes the payload.
abbrev pub Decodes : Codec → Text → Type 0
Decodes c raw = (m : Option Object) × (c.unmarshal raw ≡ ok m)

abbrev pub AllDecode : Codec → Dict Text → Type 0
AllDecode c parts = All (λ e. Decodes c e.1) parts

pub insert-AllDecode :
    (c : Codec) (k raw : Text) (parts : Dict Text)
    → Decodes c raw
    → AllDecode c parts
    → AllDecode c (insert k raw parts)
unfolding insert
insert-AllDecode c k raw [] d h = (d, tt)
insert-AllDecode c k raw (e ∷ parts) d h = elim (Bool-cases (text_eq e.0 k)) [
  | inl same ↦ rw same (d, h.1)
  | inr other ↦ rw other (h.0, insert-AllDecode c k raw parts d h.1)
]

pub decode_streams_ok :
    (c : Codec) (parts : Dict Text) (acc : Dict Object)
    → AllDecode c parts
    → (d : Dict Object) × (decode_streams c parts acc ≡ ok d)
unfolding decode_streams
decode_streams_ok c [] acc h = (acc, refl)
decode_streams_ok c ((s, raw) ∷ rest) acc ((m, e), h) =
    let (d, p) = decode_streams_ok c rest (insert s (or_empty m) acc) h in (d, rw e p)

-- The text of a projection: it is made, and it is not empty.
pub apply_ok :
    (c : Codec)
    → IsJson c
    → (parts : Dict Text) (proj : List ProjectionField) → AllDecode c parts
    → (out : Text) × (apply c parts proj ≡ ok out) × (is_empty out ≡ false)
unfolding apply
apply_ok c total parts proj h =
    let (d, e) = decode_streams_ok c parts [] h in
    let (out, p, q) = total.marshal_ok (project_fields proj d []) in (out, rw e p, q)
