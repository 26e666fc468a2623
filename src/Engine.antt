-- ===== src/Engine.antt =====
-- internal/engine/join.go: the completion check and the projection of a complete state.
use confluo.Prelude.{ℕ, Text, Bool, false, Option, none, some, length, leb, if◌then◌else◌}
use confluo.Prelude.Dict.{Dict}
use confluo.Fault.{Result, ok, ◌>>=◌}
use confluo.Config.{JoinConfig, width}
use confluo.Projection.{apply}
use confluo.World.{Codec}

-- `store.JoinState`
pub record JoinState : Type 0 where
  pub join_key_hash : Text
  pub join_key_raw : Text
  pub config_id : ℕ
  pub participant_data : Dict Text
  pub arrival_timestamps : Dict ℕ
  pub is_completed : Bool

-- `Engine.IsComplete`
unfoldable pub is_complete : JoinConfig → Option JoinState → Bool
unfolding width
is_complete cfg none = false
is_complete cfg (some s) = leb (width cfg) (length s.participant_data)

-- `Engine.Project`; nil bytes are `none`.
unfoldable pub project : Codec → JoinConfig → Option JoinState → Result (Option Text)
project c cfg none = ok none
project c cfg (some s) = apply c s.participant_data cfg.projection >>= λ out. ok (some out)

pub record ProcessResult : Type 0 where
  pub state : Option JoinState
  pub joined_bytes : Option Text

-- `Engine.Process`
unfoldable pub process : Codec → JoinConfig → Option JoinState → Result ProcessResult
unfolding is_complete project
process c cfg none = ok (record { state = none; joined_bytes = none })
process c cfg (some s) =
    if is_complete cfg (some s)
    then (project c cfg (some s) >>= λ joined. ok (record { state = none; joined_bytes = joined }))
    else ok (record { state = some s; joined_bytes = none })
