-- ===== src/Timeout/Keeps.antt =====
-- The timeout manager keeps what its reads and its expiries keep.
use confluo.Prelude.{ℕ, Text, Option, none, some, List, [], ◌∷◌}
use confluo.Fault.{Result, ok, err}
use confluo.Engine.{JoinState}
use confluo.Timeout.{
  Manager, scheduler, schedule_timeout, process_due, process_members, process_member,
  process_decoded, examine, expire, unschedule,
}
use confluo.World.{History}
use confluo.World.Keeps.{Keeps, IsCalm, Keeps-bind, keeps_rules}

module _ {P : History → Type 0} (calm : IsCalm P) (m : Manager) where
  pub schedule_timeout-Keeps :
      (hash : Text) (at : ℕ) → Keeps P ((scheduler m).schedule_timeout hash at)
  unfolding scheduler schedule_timeout
  schedule_timeout-Keeps hash at = search (keeps_rules, calm)

  module _ (gets : (hash : Text) → Keeps P (m.store.get hash))
      (expires : (member hash : Text) (s : JoinState)
        → Keeps P (expire m m.join_cfg.egress member hash s)) where
    examine-Keeps :
        (member hash : Text) (r : Result (Option JoinState)) → Keeps P (examine m member hash r)
    unfolding unschedule
    examine-Keeps member hash (err e) = search (keeps_rules, calm)
    examine-Keeps member hash (ok none) = search (keeps_rules, calm)
    examine-Keeps member hash (ok (some s)) = search (keeps_rules, expires, calm)

    decoded-Keeps : (member : Text) (h : Option Text) → Keeps P (process_decoded m member h)
    decoded-Keeps member none = search keeps_rules
    decoded-Keeps member (some hash) = search (keeps_rules, gets, examine-Keeps)

    due-Keeps : (ms : List Text) → Keeps P (process_members m ms)
    unfolding process_members process_member
    due-Keeps [] = search keeps_rules
    due-Keeps (x ∷ ms) = Keeps-bind _ _ (decoded-Keeps x _) (λ _. due-Keeps ms)

    pub process_due-Keeps : Keeps P (process_due m)
    unfolding process_due
    process_due-Keeps = search (keeps_rules, due-Keeps, calm) depth 8
