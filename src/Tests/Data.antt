-- ===== src/Tests/Data.antt =====
-- Keys, projections and the rows of other configurations.
use native.Mathlib.Omega.{arith}
use confluo.Prelude.{
  false, Text, codes, ◌++◌, text_eq, List, text_eq_iff, ◌≡◌, ◌↔◌, ◌<◌, ℕ, refl, some, Option, [],
  ◌∷◌,
}
use confluo.Prelude.Int.{pos}
use confluo.Prelude.Dict.{Dict, lookup, insert}
use confluo.Fault.{ok}
use confluo.Json.{Object, Value, text}
use confluo.Config.{ProjectionField}
use confluo.Config.Validate.{validate_join_config}
use confluo.Config.Validate.Sound.{IsValid, validate_join_config-IsValid}
use confluo.World.{Codec, scoped, single}
use confluo.Keys.{key_from_fields}
use confluo.Keys.Order.{SortsKeys, contains, key_from_fields_order}
use confluo.Keys.Partition.{hash_to_partition, hash_to_partition_bounds}
use confluo.Projection.{apply, decode_streams, project_fields}
use confluo.Projection.Order.{AreDistinct, SameMap}
use confluo.Projection.Map.{projected, project_map, of_entries, apply-project_map}
use confluo.Store.{scoped_store}
use confluo.Store.Refinement.{Spares, scoped_store-Spares}
use confluo.Tests.Lab.{join_two, lab, start, decode_payload, print_values}

abbrev printed : Option Value → Text
printed (some (text s)) = 1 ∷ s
printed _ = []

-- A codec that prints two fields in the order of their names.
abbrev sorting : Codec
sorting = record lab.codec {
  marshal = λ m. ok (printed (lookup (codes "a") m) ++ printed (lookup (codes "b") m));
}

sorting-SortsKeys : SortsKeys sorting
sorting-SortsKeys m n same = rw (same (codes "a"), same (codes "b"))

abbrev fields_ab : Object
fields_ab = (codes "a", text (codes "x")) ∷ (codes "b", text (codes "y")) ∷ []

abbrev fields_ba : Object
fields_ba = (codes "b", text (codes "y")) ∷ (codes "a", text (codes "x")) ∷ []

ab-same :
    {V : Type 0} (x y : V)
    → SameMap ((codes "a", x) ∷ (codes "b", y) ∷ []) ((codes "b", y) ∷ (codes "a", x) ∷ [])
unfolding lookup
ab-same x y k = ground (arith, text_eq_iff (codes "a") k, text_eq_iff (codes "b") k)

ab-contains :
    (k : Text) → contains (codes "a" ∷ codes "b" ∷ []) k ≡ contains (codes "b" ∷ codes "a" ∷ []) k
unfolding contains
ab-contains k = ground arith

key_from_fields_order_example :
    key_from_fields sorting (codes "a" ∷ codes "b" ∷ []) fields_ab
    ≡ key_from_fields sorting (codes "b" ∷ codes "a" ∷ []) fields_ba
key_from_fields_order_example =
    key_from_fields_order sorting (codes "a" ∷ codes "b" ∷ []) (codes "b" ∷ codes "a" ∷ [])
      fields_ab fields_ba sorting-SortsKeys ab-contains
      (ab-same (text (codes "x")) (text (codes "y")))

abbrev parts_ab : Dict Text
parts_ab = (codes "a", codes "k1") ∷ (codes "b", codes "k2") ∷ []

abbrev parts_ba : Dict Text
parts_ba = (codes "b", codes "k2") ∷ (codes "a", codes "k1") ∷ []

abbrev both_values : List ProjectionField
both_values =
    record { output = codes "left"; stream = codes "a"; field = codes "v" }
    ∷ record { output = codes "right"; stream = codes "b"; field = codes "v" }
    ∷ []

-- The order of the entries makes no difference.
apply_in_order : projected (apply lab.codec parts_ba both_values) ≡ some (7 ∷ codes "12.")
unfolding apply decode_streams decode_payload project_fields lookup insert print_values text_eq
apply_in_order = refl

ab-AreDistinct : AreDistinct parts_ab
unfolding lookup text_eq
ab-AreDistinct = (refl, (refl, tt))

apply-project_map_example :
    (projected (apply lab.codec parts_ab both_values)
      ≡ project_map lab.codec both_values (of_entries parts_ab ab-AreDistinct))
    × ((d' : Dict Text) (u' : AreDistinct d')
        → SameMap parts_ab d'
        → projected (apply lab.codec d' both_values)
          ≡ project_map lab.codec both_values (of_entries parts_ab ab-AreDistinct))
    × ((j k v w : Text)
        → text_eq j k ≡ false
        → projected (apply lab.codec (insert j v (insert k w parts_ab)) both_values)
          ≡ projected (apply lab.codec (insert k w (insert j v parts_ab)) both_values))
apply-project_map_example = apply-project_map lab.codec both_values parts_ab ab-AreDistinct

hash_to_partition_bounds_example :
    (p : ℕ) × (hash_to_partition (255 ∷ 255 ∷ 255 ∷ 255 ∷ 255 ∷ 255 ∷ 255 ∷ 255 ∷ 9 ∷ []) (pos 12)
      ≡ some (pos p))
    × (p < 12)
hash_to_partition_bounds_example =
    hash_to_partition_bounds 255 255 255 255 255 255 255 255 (9 ∷ []) 12 (omega arith) (omega arith)

scoped_store-Spares_example :
    Spares (scoped_store 1) (scoped 2 (codes "k")) lab start
    × Spares (scoped_store 1) (single (codes "k")) lab start
scoped_store-Spares_example = scoped_store-Spares 1 2 (omega arith) lab start (codes "k")

validate_join_config-IsValid_example :
    validate_join_config (some join_two) ≡ ok tt ↔ IsValid join_two
validate_join_config-IsValid_example = validate_join_config-IsValid join_two
