-- ===== src/JoinSpec.antt =====
-- The join that docs/ARCHITECTURE.md promises, with no database, filter or messages: for each key
-- the payloads that have arrived, by stream, until there are enough streams.
pub mod Rounds
pub mod Deadlines
pub mod Order
use confluo.Prelude.{ℕ, Text, Bool, ◌≡◌, List, [], ◌∷◌, ◌++◌, length, leb, text_eq, if◌then◌else◌}
use confluo.Prelude.Dict.{Dict, insert}

-- An event that has been read: the hash of its key, its stream, its payload and its message key.
pub record Arrival : Type 0 where
  pub hash : Text
  pub stream : Text
  pub payload : Text
  pub msg_key : Text

abbrev pub Table : Type 0
Table = Text → Dict Text

abbrev pub gathered : Table → Arrival → Dict Text
gathered t a = insert a.stream a.payload (t a.hash)

abbrev pub is_full : ℕ → Table → Arrival → Bool
is_full n t a = leb n (length (gathered t a))

-- The event is added to its key, and a full key is emptied.
unfoldable pub next : ℕ → Table → Arrival → Table
next n t a k = if text_eq a.hash k then (if is_full n t a then [] else gathered t a) else t k

-- What the event makes the join send: the payloads of a full key, put together.
unfoldable pub emission : (Dict Text → Text) → ℕ → Table → Arrival → List (Text × Text)
emission joined n t a = if is_full n t a then (a.msg_key, joined (gathered t a)) ∷ [] else []
