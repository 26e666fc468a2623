-- ===== src/World/Views.antt =====
-- Views of a history. What ScyllaDB holds, if it applies exactly the statements that it acknowledged
-- and no row expires; which keys the Bloom filter has; and what documented behaviour of the
-- services the theorems about a healthy system rest on.
use confluo.Prelude.{
  ℕ, Text, Bool, true, false, ◌&&◌, ◌||◌, ◌≡◌, ◌≢◌, Option, none, some, List, [], ◌∷◌, ◌==◌,
  text_eq, is_empty, if◌then◌else◌,
}
use confluo.Prelude.Dict.{Dict, insert}
use confluo.Fault.{ok}
use confluo.Json.{Object}
use confluo.World.Events.{
  RowKey, single, scoped, Assignments, update, delete, ScanReply, found, not_found, bf_add,
  bf_exists, sadd, srem, sismember, History, Event, KafkaRecord, executed, commanded, queried,
  produced, Codec, Services, Command, Query, Statement,
}

unfoldable pub row_key_eq : RowKey → RowKey → Bool
row_key_eq (single h) (single k) = text_eq h k
row_key_eq (single h) (scoped d k) = false
row_key_eq (scoped c h) (single k) = false
row_key_eq (scoped c h) (scoped d k) = (c == d) && text_eq h k

-- The columns of a row that are not its key.
pub record Stored : Type 0 where
  pub raw : Text
  pub config_id : Option ℕ
  pub participants : Dict Text
  pub arrivals : Dict ℕ

abbrev pub participants_of : Option Stored → Dict Text
participants_of none = []
participants_of (some s) = s.participants

abbrev pub arrivals_of : Option Stored → Dict ℕ
arrivals_of none = []
arrivals_of (some s) = s.arrivals

-- An UPDATE makes the row if it is not there; the entries of its maps are set one by one.
unfoldable pub merge : Assignments → Option Stored → Stored
merge a old = record {
  raw = a.join_key_raw;
  config_id = a.config_id;
  participants = insert a.stream a.payload (participants_of old);
  arrivals = insert a.stream a.arrival (arrivals_of old);
}

unfoldable pub row_step : Event → RowKey → Option Stored → Option Stored
unfolding merge row_key_eq
row_step (executed (update k a) none) j old = if row_key_eq k j then some (merge a old) else old
row_step (executed (delete k) none) j old = if row_key_eq k j then none else old
row_step _ j old = old

unfoldable pub row_after : History → RowKey → Option Stored
unfolding row_step
row_after [] k = none
row_after (e ∷ h) k = row_step e k (row_after h k)

abbrev pub hash_of : RowKey → Text
hash_of (single h) = h
hash_of (scoped c h) = h

abbrev pub id_of : RowKey → Option ℕ → ℕ
id_of (single h) none = 0
id_of (single h) (some c) = c
id_of (scoped c h) _ = c

-- The reply to a SELECT: `is_completed` is never written, and a null Boolean is read as false.
abbrev pub select_reply : RowKey → Option Stored → ScanReply
select_reply k none = not_found
select_reply k (some s) = found (record {
  join_key_hash = hash_of k;
  join_key_raw = s.raw;
  config_id = id_of k s.config_id;
  participant_data = some s.participants;
  arrival_timestamps = some s.arrivals;
  is_completed = false;
})

-- The filter was told of an item and acknowledged it, or has answered yes for it.
unfoldable pub item_step : Text → Text → Event → Bool → Bool
item_step key item (commanded (bf_add k i) none) before =
    (text_eq k key && text_eq i item) || before
item_step key item (queried (bf_exists k i) (ok true)) before =
    (text_eq k key && text_eq i item) || before
item_step key item _ before = before

unfoldable pub has_item : Text → Text → History → Bool
unfolding item_step
has_item key item [] = false
has_item key item (e ∷ h) = item_step key item e (has_item key item h)

-- Whether an item stands in a Redis set, after the commands that were acknowledged.
unfoldable pub member_step : Text → Text → Event → Bool → Bool
member_step key item (commanded (sadd k i) none) before =
    (text_eq k key && text_eq i item) || before
member_step key item (commanded (srem k i) none) before =
    if text_eq k key && text_eq i item then false else before
member_step key item _ before = before

unfoldable pub is_member : Text → Text → History → Bool
unfolding member_step
is_member key item [] = false
is_member key item (e ∷ h) = member_step key item e (is_member key item h)

-- The messages that were acknowledged on a topic, newest first: key and value.
unfoldable pub sent_step : Text → Event → List (Text × Text) → List (Text × Text)
sent_step topic (produced t k v none) before = if text_eq t topic then (k, v) ∷ before else before
sent_step topic _ before = before

unfoldable pub sent : Text → History → List (Text × Text)
unfolding sent_step
sent topic [] = []
sent topic (e ∷ h) = sent_step topic e (sent topic h)

-- The documented behaviour of services that do not fail: statements, commands, messages and commits are
-- acknowledged, a SELECT reads what was acknowledged, and a Bloom filter, from which nothing is
-- removed, answers yes for every item that it was told and for every one for which it has answered
-- yes before (it may say yes for others too).
pub record IsHealthy (env : Services) : Type 0 where
  pub exec_ok : (h : History) (s : Statement) → env.exec h s ≡ none
  pub command_ok : (h : History) (c : Command) → env.command h c ≡ none
  pub produce_ok : (h : History) (topic key value : Text) → env.produce h topic key value ≡ none
  pub commit_ok : (h : History) (r : KafkaRecord) → env.commit h r ≡ none
  pub scan_row : (h : History) (k : RowKey) → env.scan h k ≡ select_reply k (row_after h k)
  pub query_ok : (h : History) (q : Query) → (b : Bool) × (env.query h q ≡ ok b)
  pub no_false_negative :
      (h : History) (key item : Text)
      → has_item key item h ≡ true
      → env.query h (bf_exists key item) ≡ ok true

-- `json.Marshal` succeeds on every decoded object, no JSON text is empty, and `json.Unmarshal`
-- refuses an empty input.
pub record IsJson (c : Codec) : Type 0 where
  pub marshal_ok : (m : Object) → (out : Text) × (c.marshal m ≡ ok out) × (is_empty out ≡ false)
  pub empty_fails : (m : Option Object) → c.unmarshal [] ≢ ok m

-- Redis answers for a set what it was told.
pub record TellsMembers (env : Services) : Type 0 where
  pub member_ok :
      (h : History) (key item : Text) → env.query h (sismember key item) ≡ ok (is_member key item h)
