-- ===== src/Keys/Order.antt =====
-- The hash of a composite key depends on which fields there are, not on the order in which the
-- configuration or the payload lists them.
use confluo.Prelude.{
  Text, Option-cases, Bool, true, false, ◌≡◌, refl, sym, ◌∙◌, ◌||◌, Option, none, some, List, [],
  ◌∷◌, is_some, is_empty, text_eq, text_eq_iff, text_eq_refl, arith, if◌then◌else◌,
}
use confluo.Prelude.Dict.{lookup, lookup-insert}
use confluo.Json.{Object, Value}
use confluo.World.{Codec}
use confluo.Keys.{
  names, copy_fields, put_found, serialize_composite, composite_key, key_from_fields,
}
use confluo.Keys.Sorting.{sort, place}

unfoldable pub contains : List Text → Text → Bool
contains [] k = false
contains (f ∷ fs) k = text_eq f k || contains fs k

-- `json.Marshal` sorts the keys of a map: its text depends on the entries alone.
abbrev pub SortsKeys : Codec → Type 0
SortsKeys c = (m n : Object) → ((k : Text) → lookup k m ≡ lookup k n) → c.marshal m ≡ c.marshal n

abbrev or_else : Option Value → Option Value → Option Value
or_else none o = o
or_else (some v) o = some v

abbrev picked : Bool → Option Value → Option Value → Option Value
picked true found before = or_else found before
picked false found before = before

lookup-put_found :
    (f : Text) (o : Option Value) (m : Object) (k : Text)
    → lookup k (put_found f o m) ≡ (if text_eq f k then or_else o (lookup k m) else lookup k m)
lookup-put_found f none m k = ground arith
lookup-put_found f (some v) m k = lookup-insert f k v m

lookup-copy_fields :
    (fs : List Text) (values m : Object) (k : Text)
    → lookup k (copy_fields fs values m) ≡ picked (contains fs k) (lookup k values) (lookup k m)
unfolding copy_fields contains
lookup-copy_fields [] values m k = refl
lookup-copy_fields (f ∷ fs) values m k =
    let m' = put_found f (lookup f values) m in
    ground (
      arith,
      lookup-copy_fields fs values m' k,
      lookup-put_found f (lookup f values) m k,
      text_eq_iff f k,
    )

contains-names : (m : Object) (k : Text) → contains (names m) k ≡ is_some (lookup k m)
unfolding contains names lookup
contains-names [] k = refl
contains-names ((j, v) ∷ m) k = ground (arith, contains-names m k)

contains-place :
    (a : Text) (l : List Text) (k : Text) → contains (place a l) k ≡ (text_eq a k || contains l k)
unfolding contains place
contains-place a [] k = refl
contains-place a (b ∷ bs) k = ground (arith, contains-place a bs k)

contains-sort : (l : List Text) (k : Text) → contains (sort l) k ≡ contains l k
unfolding sort contains
contains-sort [] k = refl
contains-sort (a ∷ as') k = ground (arith, contains-place a (sort as') k, contains-sort as' k)

-- What `serializeComposite` hands to the codec has the entries of the map.
lookup-rebuilt : (m : Object) (k : Text) → lookup k (copy_fields (sort (names m)) m []) ≡ lookup k m
unfolding lookup
lookup-rebuilt m k = ground (
  arith,
  lookup-copy_fields (sort (names m)) m [] k,
  contains-sort (names m) k,
  contains-names m k,
  Option-cases (lookup k m),
)

is_empty-eq : (m n : Object) → ((k : Text) → lookup k m ≡ lookup k n) → is_empty m ≡ is_empty n
unfolding lookup
is_empty-eq [] [] h = refl
is_empty-eq [] ((j, v) ∷ n) h = ground (arith, h j, text_eq_refl j)
is_empty-eq ((j, v) ∷ m) [] h = ground (arith, h j, text_eq_refl j)
is_empty-eq (e ∷ m) (f ∷ n) h = refl

serialize_composite-eq :
    (c : Codec)
    → SortsKeys c
    → (m n : Object) → ((k : Text) → lookup k m ≡ lookup k n)
    → serialize_composite c m ≡ serialize_composite c n
unfolding serialize_composite
serialize_composite-eq c law m n h = rw (
  is_empty-eq m n h,
  law (copy_fields (sort (names m)) m []) (copy_fields (sort (names n)) n [])
      (λ k. lookup-rebuilt m k ∙ h k ∙ sym (lookup-rebuilt n k)),
)

-- Two configurations that name the same fields, and two payloads with the same entries, have the
-- same join key, if the codec sorts the keys of a map.
pub key_from_fields_order :
    (c : Codec) (fs gs : List Text) (values values' : Object)
    → SortsKeys c
    → ((k : Text) → contains fs k ≡ contains gs k)
    → ((k : Text) → lookup k values ≡ lookup k values')
    → key_from_fields c fs values ≡ key_from_fields c gs values'
unfolding key_from_fields composite_key
key_from_fields_order c fs gs values values' law named same =
    let e =
      serialize_composite-eq c law (copy_fields fs values []) (copy_fields gs values' []) (λ k.
        lookup-copy_fields fs values [] k
        ∙ named_entries k
        ∙ sym (lookup-copy_fields gs values' [] k)) in
    rw e
  where
    named_entries :
        (k : Text)
        → picked (contains fs k) (lookup k values) (lookup k [])
          ≡ picked (contains gs k) (lookup k values') (lookup k [])
    named_entries k = rw (named k, same k)
