-- ===== src/Store/Refinement.antt =====
-- The store of one configuration leaves the rows of every other configuration alone.
use confluo.Prelude.{ℕ, Text, ◌≡◌, ◌≢◌, arith}
use confluo.World.{Services, World, RowKey, scoped, single}
use confluo.World.Views.{row_after}
use confluo.Store.{
  StateStore, scoped_store, get_state_v2, upsert_participant_v2, upsert_participant_only_v2,
  delete_state_v2,
}

-- The four operations, on any key, end in a world where a row is as it was.
pub record Spares (s : StateStore) (row : RowKey) (env : Services) (w : World) : Type 0 where
  pub by_get : (h : Text) → row_after (s.get h env w).1.history row ≡ row_after w.history row
  pub by_upsert :
      (h raw : Text) (c : ℕ) (stream payload : Text)
      → row_after (s.upsert h raw c stream payload env w).1.history row ≡ row_after w.history row
  pub by_upsert_only :
      (h raw : Text) (c : ℕ) (stream payload : Text)
      → row_after (s.upsert_only h raw c stream payload env w).1.history row
        ≡ row_after w.history row
  pub by_remove : (h : Text) → row_after (s.remove h env w).1.history row ≡ row_after w.history row

module _ (c d : ℕ) (other : c ≢ d) (env : Services) (w : World) where
  -- The store that is bound to one configuration id never changes a row of another id, nor a row of
  -- the table without ids, whatever the database answers.
  pub scoped_store-Spares :
      (k : Text)
      → Spares (scoped_store c) (scoped d k) env w × Spares (scoped_store c) (single k) env w
  unfolding scoped_store upsert_participant_v2 get_state_v2 upsert_participant_only_v2
      delete_state_v2 row_after
  scoped_store-Spares k = (
    record {
      by_get = λ h. ground arith;
      by_upsert = λ h raw i stream payload. ground arith;
      by_upsert_only = λ h raw i stream payload. ground arith;
      by_remove = λ h. ground arith;
    },
    record {
      by_get = λ h. ground arith;
      by_upsert = λ h raw i stream payload. ground arith;
      by_upsert_only = λ h raw i stream payload. ground arith;
      by_remove = λ h. ground arith;
    },
  )
