-- ===== src/Processor/Foreign.antt =====
-- What the store of one configuration does leaves every foreign row as it is.
use confluo.Prelude.{ℕ, Text, false, ◌≡◌, ◌≢◌, refl, Option, ◌∷◌, arith}
use confluo.Store.{
  scoped_store, get_state_v2, upsert_participant_v2, upsert_participant_only_v2, delete_state_v2,
}
use confluo.World.{
  committed, Services, World, History, Event, executed, RowKey, single, scoped, Statement, update,
  delete, ◌>>=◌, exec, Go,
}
use confluo.World.Keeps.{Keeps, IsCalm, IsCall, KeptByCommits, Keeps-exec, keeps_rules}
use confluo.World.Views.{Stored, row_after, row_key_eq}
use confluo.Store.Keeps.{StoreKeeps}

-- The row of a key is as it was.
abbrev pub RowIs : RowKey → Option Stored → History → Type 0
RowIs k o h = row_after h k ≡ o

pub RowIs-IsCalm : (k : RowKey) (o : Option Stored) → IsCalm (RowIs k o)
unfolding row_after
RowIs-IsCalm k o = record { step = go }
  where
    go : (e : Event) (h : History) → IsCall e → RowIs k o h → RowIs k o (e ∷ h)
    go (executed s r) h x g = absurd x
    go (committed rec r) h x g = absurd x
    go _ h x g = g

pub RowIs-KeptByCommits : (k : RowKey) (o : Option Stored) → KeptByCommits (RowIs k o)
unfolding row_after
RowIs-KeptByCommits k o rec h r g = g

abbrev key_of_statement : Statement → RowKey
key_of_statement (update k a) = k
key_of_statement (delete k) = k

exec-Keeps :
    (k : RowKey) (o : Option Stored) (s : Statement)
    → row_key_eq (key_of_statement s) k ≡ false
    → Keeps (RowIs k o) (exec s)
unfolding row_after
exec-Keeps k o (update j a) e = Keeps-exec (update j a) (λ h r g. ground arith)
exec-Keeps k o (delete j) e = Keeps-exec (delete j) (λ h r g. ground arith)

-- The row of a key in the table without ids, or under another id.
abbrev pub IsForeign : ℕ → RowKey → Type 0
IsForeign c (single h) = Unit
IsForeign c (scoped d h) = c ≢ d

foreign_key :
    (c : ℕ) (hash : Text) (k : RowKey) → IsForeign c k → row_key_eq (scoped c hash) k ≡ false
unfolding row_key_eq
foreign_key c hash (single h) f = refl
foreign_key c hash (scoped d h) f = ground arith

module _ (c : ℕ) (k : RowKey) (foreign : IsForeign c k) (o : Option Stored) where
  abbrev P : History → Type 0
  P = RowIs k o

  update-Keeps :
      (hash : Text) (a : confluo.World.Assignments) → Keeps P (exec (update (scoped c hash) a))
  update-Keeps hash a = exec-Keeps k o (update (scoped c hash) a) (foreign_key c hash k foreign)

  upsert_only-Keeps :
      (hash raw : Text) (i : ℕ) (stream payload : Text)
      → Keeps P ((scoped_store c).upsert_only hash raw i stream payload)
  unfolding scoped_store upsert_participant_only_v2
  upsert_only-Keeps hash raw i stream payload = search (keeps_rules, update-Keeps, RowIs-IsCalm k o)

  get-Keeps : (hash : Text) → Keeps P ((scoped_store c).get hash)
  unfolding scoped_store get_state_v2
  get-Keeps hash = search (keeps_rules, RowIs-IsCalm k o)

  upsert-Keeps :
      (hash raw : Text) (i : ℕ) (stream payload : Text)
      → Keeps P ((scoped_store c).upsert hash raw i stream payload)
  unfolding scoped_store upsert_participant_v2 upsert_participant_only_v2 get_state_v2
  upsert-Keeps hash raw i stream payload = search (keeps_rules, update-Keeps, RowIs-IsCalm k o)

  remove-Keeps : (hash : Text) → Keeps P ((scoped_store c).remove hash)
  unfolding scoped_store delete_state_v2
  remove-Keeps hash = exec-Keeps k o (delete (scoped c hash)) (foreign_key c hash k foreign)

  pub foreign-StoreKeeps : StoreKeeps P (scoped_store c)
  foreign-StoreKeeps = record {
    get = get-Keeps;
    upsert = upsert-Keeps;
    upsert_only = upsert_only-Keeps;
    remove = remove-Keeps;
  }
