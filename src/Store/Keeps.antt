-- ===== src/Store/Keeps.antt =====
-- What the operations of a store keep.
use confluo.Prelude.{ℕ, Text}
use confluo.Store.{
  StateStore, single_store, scoped_store, get_state, upsert_participant, upsert_participant_only,
  delete_state, get_state_v2, upsert_participant_v2, upsert_participant_only_v2, delete_state_v2,
}
use confluo.World.{History, Statement, exec}
use confluo.World.Keeps.{Keeps, IsCalm, keeps_rules}

pub record StoreKeeps (P : History → Type 0) (s : StateStore) : Type 0 where
  pub get : (hash : Text) → Keeps P (s.get hash)
  pub upsert :
      (hash raw : Text) (c : ℕ) (stream payload : Text)
      → Keeps P (s.upsert hash raw c stream payload)
  pub upsert_only :
      (hash raw : Text) (c : ℕ) (stream payload : Text)
      → Keeps P (s.upsert_only hash raw c stream payload)
  pub remove : (hash : Text) → Keeps P (s.remove hash)

-- What no statement can end either, both stores keep.
module _ {P : History → Type 0} (calm : IsCalm P) (kept : (s : Statement) → Keeps P (exec s)) where
  pub single-StoreKeeps : StoreKeeps P single_store
  unfolding single_store get_state upsert_participant delete_state upsert_participant_only
  single-StoreKeeps = record {
    get = λ hash. search (keeps_rules, calm);
    upsert = λ hash raw c stream payload. search (keeps_rules, kept, calm);
    upsert_only = λ hash raw c stream payload. search (keeps_rules, kept, calm);
    remove = λ hash. kept _;
  }

  pub scoped-StoreKeeps : (c : ℕ) → StoreKeeps P (scoped_store c)
  unfolding scoped_store get_state_v2 upsert_participant_v2 delete_state_v2
      upsert_participant_only_v2
  scoped-StoreKeeps c = record {
    get = λ hash. search (keeps_rules, calm);
    upsert = λ hash raw i stream payload. search (keeps_rules, kept, calm);
    upsert_only = λ hash raw i stream payload. search (keeps_rules, kept, calm);
    remove = λ hash. kept _;
  }
