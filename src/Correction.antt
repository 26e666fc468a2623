-- ===== src/Correction.antt =====
-- internal/egress/correction.go: the event that a late arrival sends to the corrections topic.
use confluo.Prelude.{ℕ, Text, codes}

-- `CorrectionKind`: the strings "partial", "full" and "late".
pub data CorrectionKind : Type 0 where
  partial full late : CorrectionKind

abbrev pub kind_text : CorrectionKind → Text
kind_text partial = codes "partial"
kind_text full = codes "full"
kind_text late = codes "late"

-- `payload` is raw JSON, `timestamp` a time in nanoseconds.
pub record CorrectionEvent : Type 0 where
  pub kind : CorrectionKind
  pub join_key : Text
  pub timestamp : ℕ
  pub payload : Text
