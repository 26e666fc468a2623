-- ===== src/JoinSpec/Deadlines.antt =====
-- The join with deadlines: beside the events, a key may expire with what it has gathered.
use confluo.Prelude.{
  ℕ, Text, Bool, ◌≡◌, refl, List, [], ◌∷◌, ◌++◌, ◌&&◌, ◌||◌, not, map, length, leb, is_empty,
  text_eq, if◌then◌else◌,
}
use confluo.Prelude.Dict.{Dict}
use confluo.JoinSpec.{Arrival, Table, next, emission}
use confluo.JoinSpec.Rounds.{table_after, sent_after}

pub data Move : Type 0 where
  arrive : Arrival → Move
  lapse : Text → Move

-- A key that is not full is emptied.
unfoldable pub expired : ℕ → Table → Text → Table
expired n t h k = if text_eq h k && not (leb n (length (t h))) then [] else t k

-- Under the partial policy it sends what it has, under its hash, if that is anything.
unfoldable pub remainder : Bool → (Dict Text → Text) → ℕ → Table → Text → List (Text × Text)
remainder partial joined n t h =
    if is_empty (t h) || leb n (length (t h)) || not partial then [] else (h, joined (t h)) ∷ []

unfoldable pub moved : ℕ → Table → Move → Table
unfolding next expired
moved n t (arrive a) = next n t a
moved n t (lapse h) = expired n t h

unfoldable pub sends : Bool → (Dict Text → Text) → ℕ → Table → Move → List (Text × Text)
unfolding emission remainder
sends partial joined n t (arrive a) = emission joined n t a
sends partial joined n t (lapse h) = remainder partial joined n t h

-- The table and the messages, newest first, after some moves.
unfoldable pub table_moved : ℕ → Table → List Move → Table
unfolding moved
table_moved n t [] = t
table_moved n t (m ∷ ms) = table_moved n (moved n t m) ms

unfoldable pub sent_moved :
    Bool → (Dict Text → Text) → ℕ → Table → List Move → List (Text × Text) → List (Text × Text)
unfolding moved sends
sent_moved partial joined n t [] before = before
sent_moved partial joined n t (m ∷ ms) before =
    sent_moved partial joined n (moved n t m) ms (sends partial joined n t m ++ before)

module _ (n : ℕ) where
  pub table_moved-append :
      (t : Table) (ms ns : List Move)
      → table_moved n t (ms ++ ns) ≡ table_moved n (table_moved n t ms) ns
  unfolding table_moved
  table_moved-append t [] ns = refl
  table_moved-append t (m ∷ ms) ns = table_moved-append (moved n t m) ms ns

  pub table_moved-arrive :
      (t : Table) (as' : List Arrival) → table_moved n t (map arrive as') ≡ table_after n t as'
  unfolding table_moved table_after
  table_moved-arrive t [] = refl
  table_moved-arrive t (a ∷ as') = table_moved-arrive (next n t a) as'

  module _ (partial : Bool) (joined : Dict Text → Text) where
    pub sent_moved-append :
        (t : Table) (ms ns : List Move) (before : List (Text × Text))
        → sent_moved partial joined n t (ms ++ ns) before
          ≡ sent_moved partial joined n
              (table_moved n t ms)
              ns
              (sent_moved partial joined n t ms before)
    unfolding sent_moved table_moved
    sent_moved-append t [] ns before = refl
    sent_moved-append t (m ∷ ms) ns before =
        sent_moved-append (moved n t m) ms ns (sends partial joined n t m ++ before)

    pub sent_moved-arrive :
        (t : Table) (as' : List Arrival) (before : List (Text × Text))
        → sent_moved partial joined n t (map arrive as') before ≡ sent_after joined n t as' before
    unfolding sent_moved sent_after
    sent_moved-arrive t [] before = refl
    sent_moved-arrive t (a ∷ as') before =
        sent_moved-arrive (next n t a) as' (emission joined n t a ++ before)
