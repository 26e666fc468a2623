-- ===== src/JoinSpec/Rounds.antt =====
-- The join over several events: the keys do not disturb one another, and a key whose streams have
-- all arrived sends one message.
use confluo.Prelude.{
  ℕ, suc, ◌+◌, Text, true, false, ◌≡◌, refl, ◌∙◌, none, List, [], ◌∷◌, ◌++◌, length, leb, text_eq,
  text_eq_iff, arith, Bool-cases, inl, inr, if◌then◌else◌,
}
use confluo.Prelude.Dict.{Dict, insert, lookup, length-insert}
use confluo.JoinSpec.{Arrival, Table, gathered, is_full, next, emission}

-- The table after some events.
unfoldable pub table_after : ℕ → Table → List Arrival → Table
table_after n t [] = t
table_after n t (a ∷ as') = table_after n (next n t a) as'

-- The messages after some events, newest first, on top of those that were sent before.
unfoldable pub sent_after :
    (Dict Text → Text) → ℕ → Table → List Arrival → List (Text × Text) → List (Text × Text)
sent_after joined n t [] before = before
sent_after joined n t (a ∷ as') before =
    sent_after joined n (next n t a) as' (emission joined n t a ++ before)

-- The events of one key.
unfoldable pub of_key : Text → List Arrival → List Arrival
of_key k [] = []
of_key k (a ∷ as') = let rest = of_key k as' in if text_eq a.hash k then a ∷ rest else rest

next-agrees :
    (n : ℕ) (t u : Table) (k : Text) (a : Arrival)
    → t k ≡ u k
    → a.hash ≡ k
    → next n t a k ≡ next n u a k
unfolding next
next-agrees n t u k a h e = rw (e, h)

next_ne :
    (n : ℕ) (t : Table) (k : Text) (a : Arrival) → text_eq a.hash k ≡ false → next n t a k ≡ t k
unfolding next
next_ne n t k a e = rw e

agrees :
    (n : ℕ) (t u : Table) (k : Text) (as' : List Arrival)
    → t k ≡ u k
    → table_after n t as' k ≡ table_after n u (of_key k as') k
unfolding table_after of_key
agrees n t u k [] h = h
agrees n t u k (a ∷ as') h = elim (Bool-cases (text_eq a.hash k)) [
  | inl e ↦ rw e (
      agrees n (next n t a) (next n u a) k as'
        (next-agrees n t u k a h ((text_eq_iff a.hash k).0 e)))
  | inr e ↦ rw e (agrees n (next n t a) u k as' (next_ne n t k a e ∙ h))
]

-- What is gathered for a key is decided by the events of that key, however those of other keys
-- are mixed with them.
pub table_after-of_key :
    (n : ℕ) (t : Table) (k : Text) (as' : List Arrival)
    → table_after n t as' k ≡ table_after n t (of_key k as') k
table_after-of_key n t k as' = agrees n t t k as' refl

-- The payloads of some events, added to those that are there.
unfoldable pub gather : Dict Text → List Arrival → Dict Text
gather d [] = d
gather d (a ∷ as') = gather (insert a.stream a.payload d) as'

-- Each event is of the key and of a stream that has no payload yet.
abbrev pub AreFresh : Text → Dict Text → List Arrival → Type 0
AreFresh k d [] = Unit
AreFresh k d (a ∷ as') =
    (a.hash ≡ k) × (lookup a.stream d ≡ none) × AreFresh k (insert a.stream a.payload d) as'

abbrev pub last_key : Arrival → List Arrival → Text
last_key a [] = a.msg_key
last_key a (b ∷ bs) = last_key b bs

length-insert_new :
    (k : Text) (v : Text) (d : Dict Text)
    → lookup k d ≡ none
    → length (insert k v d) ≡ suc (length d)
length-insert_new k v d h = rw (length-insert k v d, h)

module _ (joined : Dict Text → Text) (n : ℕ) (k : Text) where
  -- The events that fill a key: the last of them sends the one message, and the key is empty.
  abbrev pub Completes : Table → Dict Text → Arrival → List Arrival → List (Text × Text) → Type 0
  Completes t d a as' before =
      (sent_after joined n t (a ∷ as') before
        ≡ (last_key a as', joined (gather d (a ∷ as'))) ∷ before)
      × (table_after n t (a ∷ as') k ≡ [])

  gathered-eq :
      (t : Table) (d : Dict Text) (a : Arrival)
      → t k ≡ d
      → a.hash ≡ k
      → gathered t a ≡ insert a.stream a.payload d
  gathered-eq t d a e f = rw (f, e)

  full_iff :
      (t : Table) (d : Dict Text) (a : Arrival)
      → t k ≡ d
      → a.hash ≡ k
      → lookup a.stream d ≡ none
      → is_full n t a ≡ leb n (suc (length d))
  full_iff t d a e f h = rw (gathered-eq t d a e f, length-insert_new a.stream a.payload d h)

  emission_part : (t : Table) (a : Arrival) → is_full n t a ≡ false → emission joined n t a ≡ []
  unfolding emission
  emission_part t a h = rw h

  emission_full :
      (t : Table) (a : Arrival)
      → is_full n t a ≡ true
      → emission joined n t a ≡ (a.msg_key, joined (gathered t a)) ∷ []
  unfolding emission
  emission_full t a h = rw h

  next_part :
      (t : Table) (d : Dict Text) (a : Arrival)
      → t k ≡ d
      → a.hash ≡ k
      → is_full n t a ≡ false
      → next n t a k ≡ insert a.stream a.payload d
  unfolding next
  next_part t d a e f h = rw ((text_eq_iff a.hash k).1 f, h) (gathered-eq t d a e f)

  next_full : (t : Table) (a : Arrival) → a.hash ≡ k → is_full n t a ≡ true → next n t a k ≡ []
  unfolding next
  next_full t a f h = rw ((text_eq_iff a.hash k).1 f, h)

  pub fill-Completes :
      (t : Table) (d : Dict Text) (a : Arrival) (as' : List Arrival) (before : List (Text × Text))
      → t k ≡ d
      → AreFresh k d (a ∷ as')
      → length d + length (a ∷ as') ≡ n
      → Completes t d a as' before
  unfolding sent_after table_after gather
  fill-Completes t d a [] before e f h =
      let full : is_full n t a ≡ true = rw (full_iff t d a e f.0 f.1) (ground arith) in
      (rw (emission_full t a full, gathered-eq t d a e f.0), next_full t a f.0 full)
  fill-Completes t d a (b ∷ bs) before e f h =
      let part : is_full n t a ≡ false = rw (full_iff t d a e f.0 f.1) (ground arith) in
      rw (emission_part t a part) (
        fill-Completes (next n t a) (insert a.stream a.payload d) b bs before
          (next_part t d a e f.0 part) f.2
          (omega (arith, length-insert_new a.stream a.payload d f.1)))
