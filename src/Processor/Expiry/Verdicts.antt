-- ===== src/Processor/Expiry/Verdicts.antt =====
-- What becomes of a key whose deadline has passed, by the row of its state.
use confluo.Prelude.{
  Text, Bool, false, ◌&&◌, ◌||◌, Option, none, some, List, [], ◌∷◌, length, leb, text_eq,
  if◌then◌else◌,
}
use confluo.Fault.{Result, ok, err}
use confluo.Config.{JoinConfig, EgressPolicy, inner, partial, other, width}
use confluo.Projection.{apply}
use confluo.World.{Codec, History, Event, commanded, zadd, zrem}
use confluo.World.Views.{Stored}
use confluo.Processor.{timeouts_key}

-- The state is gone, complete, dropped, published in part, or cannot be projected.
pub data Verdict : Type 0 where
  missing completed dropped unprojectable : Verdict
  published : Text → Verdict

abbrev pub of_policy : EgressPolicy → Result Text → Verdict
of_policy partial (ok bytes) = published bytes
of_policy partial (err e) = unprojectable
of_policy inner r = dropped
of_policy (other p) r = dropped

unfoldable pub judge : Codec → JoinConfig → Option Stored → Verdict
judge c jc none = missing
judge c jc (some s) =
    if leb (width jc) (length s.participants)
    then completed
    else of_policy jc.egress (apply c s.participants jc.projection)

abbrev pub row_by : Verdict → Option Stored → Option Stored
row_by dropped o = none
row_by (published bytes) o = none
row_by _ o = o

abbrev pub sent_by : Verdict → Text → List (Text × Text) → List (Text × Text)
sent_by (published bytes) hash before = (hash, bytes) ∷ before
sent_by _ hash before = before

-- Whether a member stands in the set of deadlines.
unfoldable pub scheduled_step : Text → Event → Bool → Bool
scheduled_step member (commanded (zadd k s i) none) before =
    (text_eq k timeouts_key && text_eq i member) || before
scheduled_step member (commanded (zrem k i) none) before =
    if text_eq k timeouts_key && text_eq i member then false else before
scheduled_step member _ before = before

unfoldable pub scheduled : Text → History → Bool
unfolding scheduled_step
scheduled member [] = false
scheduled member (e ∷ h) = scheduled_step member e (scheduled member h)

abbrev pub scheduled_by : Verdict → Bool → Bool
scheduled_by unprojectable before = before
scheduled_by _ before = false
