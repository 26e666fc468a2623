-- ===== src/Processor/Moves.antt =====
-- In a healthy system, a key that the timeout manager comes to expires in the join with deadlines.
use mathlib.Core.Path.{fun_ext, subst}
use confluo.Prelude.{
  Text, false, ◌≡◌, refl, ◌∙◌, Option, none, some, List, [], ◌∷◌, ◌++◌, arith, length, leb,
  is_empty, not, text_eq, text_eq_refl, text_eq_iff, if◌then◌else◌, Bool-cases, Option-cases, inl,
  inr,
}
use confluo.Prelude.Dict.{Dict, insert}
use confluo.Fault.{ok}
use confluo.Config.Validate.{is_partial}
use confluo.Config.{ProcessorConfig, JoinConfig, EgressPolicy, inner, partial, other, width}
use confluo.Hex.{encode}
use confluo.Hex.RoundTrip.{IsBytes}
use confluo.JoinSpec.Deadlines.{Move, lapse, expired, remainder, table_moved, sent_moved}
use confluo.Projection.{apply}
use confluo.Projection.Total.{apply_ok, AllDecode}
use confluo.Timeout.{process_member}
use confluo.World.{single, Services, World, History, executed, update, delete, RowKey}
use confluo.World.Views.{
  IsHealthy, IsJson, Stored, row_after, has_item, sent, participants_of, merge,
}
use confluo.Processor.{single_manager}
use confluo.Processor.Expiry.{
  Verdict, missing, completed, dropped, published, unprojectable, judge, of_policy, row_by, sent_by,
  after, with_history, process_member_lem, has_item-after, row-after, sent-after,
}
use confluo.Processor.Join.{IsInner}
use confluo.Processor.Sound.{IsSound, table_of}
use confluo.Processor.Steps.{joined_text}

-- The second world is the first one after some moves of the join, in tables and in messages.
pub record Moves (env : Services) (cfg : ProcessorConfig) (jc : JoinConfig) (ms : List Move)
    (w w' : World) : Type 0 where
  pub table : table_of w' ≡ table_moved (width jc) (table_of w) ms
  pub messages :
      sent cfg.egress_topic w'.history
      ≡ sent_moved
          (is_partial jc.egress)
          (joined_text env jc)
          (width jc)
          (table_of w)
          ms
          (sent cfg.egress_topic w.history)
  pub kept : IsSound env cfg w'

insert-filled : (k v : Text) (m : Dict Text) → is_empty (insert k v m) ≡ false
unfolding insert
insert-filled k v [] = refl
insert-filled k v ((j, w) ∷ m) = ground arith

-- A row has at least the payload of the UPDATE that made it.
row-filled :
    (k : RowKey) (h : History) (s : Stored)
    → row_after h k ≡ some s
    → is_empty s.participants ≡ false
unfolding row_after merge
row-filled k [] s q = cc
row-filled k (executed (update j a) none ∷ h) s q =
    let ih = row-filled k h s in
    ground (arith, ih, insert-filled a.stream a.payload (participants_of (row_after h k)))
row-filled k (executed (update j a) (some e) ∷ h) s q = row-filled k h s q
row-filled k (executed (delete j) none ∷ h) s q = let ih = row-filled k h s in ground (arith, ih)
row-filled k (executed (delete j) (some e) ∷ h) s q = row-filled k h s q
row-filled k (_ ∷ h) s q = row-filled k h s q

module _ (env : Services) (sound : IsHealthy env) (json : IsJson env.codec) (cfg : ProcessorConfig)
    (jc : JoinConfig) (plain : IsInner cfg jc) where
  -- What a key's row is judged to be, and what the table says of it.
  record Judged (w : World) (hash : Text) (v : Verdict) : Type 0 where
    emptied :
        participants_of (row_by v (row_after w.history (single hash)))
        ≡ expired (width jc) (table_of w) hash hash
    message :
        (before : List (Text × Text))
        → sent_by v hash before
          ≡ remainder (is_partial jc.egress) (joined_text env jc) (width jc) (table_of w) hash
            ++ before

  emptied_by :
      (p : EgressPolicy) (bytes : Text) (o : Option Stored)
      → participants_of (row_by (of_policy p (ok bytes)) o) ≡ []
  emptied_by inner bytes o = refl
  emptied_by partial bytes o = refl
  emptied_by (other x) bytes o = refl

  message_by :
      (p : EgressPolicy) (bytes hash : Text) (before : List (Text × Text))
      → sent_by (of_policy p (ok bytes)) hash before
        ≡ (if not (is_partial p) then [] else (hash, bytes) ∷ []) ++ before
  message_by inner bytes hash before = refl
  message_by partial bytes hash before = refl
  message_by (other x) bytes hash before = refl

  policy-Judged :
      (w : World) (hash : Text) (s : Stored)
      → row_after w.history (single hash) ≡ some s
      → leb (width jc) (length s.participants) ≡ false
      → is_empty s.participants ≡ false
      → (bytes : Text) → apply env.codec s.participants jc.projection ≡ ok bytes
      → Judged w hash (judge env.codec jc (some s))
  unfolding judge expired remainder
  policy-Judged w hash s e part filled bytes made = record {
    emptied = rw (e, text_eq_refl hash, part, made) (emptied_by jc.egress bytes (some s));
    message = λ before. rw (e, part, filled, made) (message_by jc.egress bytes hash before);
  }

  judged :
      (w : World) (hash : Text) (o : Option Stored)
      → row_after w.history (single hash) ≡ o
      → AllDecode env.codec (participants_of o)
      → Judged w hash (judge env.codec jc o)
  unfolding judge expired remainder
  judged w hash none e d = record {
    emptied = rw (e, text_eq_refl hash) (ground arith);
    message = λ before. rw e refl;
  }
  judged w hash (some s) e d =
      let filled = row-filled (single hash) w.history s e in
      let (bytes, made, _) = apply_ok env.codec json s.participants jc.projection d in
      elim (Bool-cases (leb (width jc) (length s.participants))) [
        | inl full ↦ record {
          emptied = rw (e, text_eq_refl hash, full) refl;
          message = λ before. rw (e, full) (ground arith);
        }
        | inr part ↦ policy-Judged w hash s e part filled bytes made
      ]

  module _ (w : World) (v : IsSound env cfg w) (hash : Text) where
    abbrev pub verdict : Verdict
    verdict = judge env.codec jc (row_after w.history (single hash))

    abbrev pub left : World
    left = with_history env sound cfg jc w (after cfg verdict hash w.history)

    Judged-here : Judged w hash verdict
    Judged-here = judged w hash (row_after w.history (single hash)) refl (v.decodes hash)

    row_here :
        (k : Text)
        → row_after left.history (single k) ≡ (
            if text_eq hash k
            then row_by verdict (row_after w.history (single k))
            else row_after w.history (single k))
    row_here k = row-after cfg verdict hash k w.history

    table_at : table_of left hash ≡ expired (width jc) (table_of w) hash hash
    table_at = rw (row_here hash, text_eq_refl hash) Judged-here.emptied

    table_here : (k : Text) → table_of left k ≡ expired (width jc) (table_of w) hash k
    unfolding expired
    table_here k = elim (Bool-cases (text_eq hash k)) [
      | inl same ↦
          subst (λ x. table_of left x ≡ expired (width jc) (table_of w) hash x)
            ((text_eq_iff hash k).0 same) table_at
      | inr differs ↦ rw (row_here k, differs) refl
    ]

    told_here : (name item : Text) → has_item name item left.history ≡ has_item name item w.history
    told_here name item = has_item-after cfg verdict hash name item w.history

    row_kept : (v' : Verdict) (o : Option Stored) (s : Stored) → row_by v' o ≡ some s → o ≡ some s
    row_kept missing o s e = e
    row_kept completed o s e = e
    row_kept unprojectable o s e = e
    row_kept dropped o s e = cc e
    row_kept (published b) o s e = cc e

    row_before :
        (k : Text) (s : Stored)
        → row_after left.history (single k) ≡ some s
        → row_after w.history (single k) ≡ some s
    row_before k s e = elim (Bool-cases (text_eq hash k)) [
      | inl same ↦ row_kept verdict _ s (rw (row_here k, same) at e)
      | inr differs ↦ rw (row_here k, differs) at e
    ]

    left-IsSound : IsSound env cfg left
    left-IsSound = record {
      told = λ k s e. told_here cfg.redis_bloom_key (encode k) ∙ v.told k s (row_before k s e);
      decodes = λ k. elim (Option-cases (row_after left.history (single k))) [
        | inl e ↦ rw e tt
        | inr (s, e) ↦ rw e (rw (row_before k s e) at (v.decodes k))
      ];
    }

    pub member-Moves :
        IsBytes hash
        → (process_member (single_manager cfg jc) (encode hash) env w ≡ (ok tt, left))
          × Moves env cfg jc (lapse hash ∷ []) w left
    unfolding table_moved sent_moved
    member-Moves b = (
      process_member_lem env sound cfg jc w hash b,
      record {
        table = fun_ext table_here;
        messages = sent-after cfg verdict hash w.history ∙ Judged-here.message _;
        kept = left-IsSound;
      },
    )
