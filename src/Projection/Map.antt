-- ===== src/Projection/Map.antt =====
-- The participants of a state as a Go map: association lists without duplicate keys, up to the order
-- of their entries. The projection is a function of the map.
use mathlib.Core.Quot
use mathlib.Core.Quot.{Quot, Quot-set}
use confluo.Prelude.{Text, ◌≡◌, refl, sym, ap, Option, none, some, List, arith, inl, inr}
use confluo.Prelude.{false, text_eq, text_eq_iff}
use confluo.Prelude.Dict.{Dict, insert, lookup-insert}
use confluo.Fault.{Result, ok, err, Result-cases}
use confluo.Config.{ProjectionField}
use confluo.Projection.{apply}
use confluo.Projection.Order.{insert-AreDistinct, insert-SameMap, AreDistinct, SameMap, apply_order}
use confluo.World.{Codec}

-- The bytes of a projection, if it succeeds.
abbrev pub projected : Result Text → Option Text
projected (ok out) = some out
projected (err e) = none

-- `map[string]V`
abbrev Entries : Type 0
Entries = (d : Dict Text) × AreDistinct d

abbrev SameEntries : Entries → Entries → Type 0
SameEntries a b = SameMap a.0 b.0

abbrev pub GoMap : Type 0
GoMap = Quot SameEntries

abbrev pub of_entries : (d : Dict Text) → AreDistinct d → GoMap
of_entries d u = Quot.mk (d, u)

module _ (c : Codec) (proj : List ProjectionField) where
  projected-apply :
      (d d' : Dict Text)
      → AreDistinct d
      → AreDistinct d'
      → SameMap d d'
      → projected (apply c d proj) ≡ projected (apply c d' proj)
  projected-apply d d' u u' same = elim (Result-cases (apply c d proj)) [
    | inl (out, e) ↦ rw (e, apply_order c d d' proj out u u' same e) refl
    | inr (x, e) ↦ elim (Result-cases (apply c d' proj)) [
      | inl (out, e') ↦
          let e'' = apply_order c d' d proj out u' u (λ k. sym (same k)) e' in
          absurd (ground (arith, e, e''))
      | inr (y, e') ↦ rw (e, e') refl
    ]
  ]

  texts : IsSet (Option Text)
  texts = hlevel

  -- The projection of a map.
  pub project_map : GoMap → Option Text
  project_map =
      Quot.lift texts (λ (d, u). projected (apply c d proj))
        (λ (d, u) (d', u') same. projected-apply d d' u u' same)

-- `m[k] = v`, on maps.
put : Text → Text → GoMap → GoMap
put k v =
    Quot.lift Quot-set (λ (d, u). of_entries (insert k v d) (insert-AreDistinct k v d u))
      (λ (d, u) (d', u') same. Quot.sound (insert-SameMap k v d d' same))

-- On maps the order in which two streams arrive is an equation.
put_comm :
    (j k v w : Text) → text_eq j k ≡ false → (m : GoMap) → put j v (put k w m) ≡ put k w (put j v m)
unfolding put
put_comm j k v w differ =
    Quot.ind (λ m. Quot-set _ _)
      (λ (d, u). Quot.sound (λ i. ground (
        arith,
        text_eq_iff j k,
        text_eq_iff j i,
        text_eq_iff k i,
        lookup-insert j i v (insert k w d),
        lookup-insert k i w d,
        lookup-insert k i w (insert j v d),
        lookup-insert j i v d,
      )))

-- The projection is a function of the map: what it prints for an association list without duplicate
-- keys, or that it fails, is decided by the map of its entries, and for two different keys it makes
-- no difference which is put first.
pub apply-project_map :
    (c : Codec) (proj : List ProjectionField) (d : Dict Text) (u : AreDistinct d)
    → (projected (apply c d proj) ≡ project_map c proj (of_entries d u))
      × ((d' : Dict Text) (u' : AreDistinct d')
          → SameMap d d'
          → projected (apply c d' proj) ≡ project_map c proj (of_entries d u))
      × ((j k v w : Text)
          → text_eq j k ≡ false
          → projected (apply c (insert j v (insert k w d)) proj)
            ≡ projected (apply c (insert k w (insert j v d)) proj))
unfolding project_map put
apply-project_map c proj d u = (
  refl,
  (λ d' u' same. sym (projected-apply c proj d d' u u' same)),
  (λ j k v w differ. ap (project_map c proj) (put_comm j k v w differ (of_entries d u))),
)
