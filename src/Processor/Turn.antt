-- ===== src/Processor/Turn.antt =====
-- A turn of the timeout manager in a healthy system, over all members that Redis returns.
use mathlib.Core.Path.{fun_ext}
use confluo.Prelude.{
  Text, Bool, ◌≡◌, refl, arith, Option, List, [], ◌∷◌, map, All, text_eq, if◌then◌else◌,
}
use confluo.Fault.{ok}
use confluo.Config.{ProcessorConfig, JoinConfig}
use confluo.Hex.{encode}
use confluo.Hex.RoundTrip.{IsBytes}
use confluo.Timeout.{unix, new, process_members, process_due}
use confluo.World.{single, Codec, Services, World, clock_read, ranged}
use confluo.World.Views.{Stored, row_after, sent, IsHealthy}
use confluo.Processor.{single_manager, timeouts_key}
use confluo.Processor.Expiry.{judge, row_by, sent_by, scheduled, scheduled_by, member_expires}

-- What is known of the store: the row of each key.
abbrev pub Rows : Type 0
Rows = Text → Option Stored

module _ (c : Codec) (jc : JoinConfig) where
  abbrev pub without : Text → Rows → Rows
  without hash rows k = if text_eq hash k then row_by (judge c jc (rows hash)) (rows k) else rows k

  -- The rows, the messages and the set of deadlines after some keys have expired, one by one.
  unfoldable pub expire_rows : List Text → Rows → Rows
  expire_rows [] rows = rows
  expire_rows (h ∷ hs) rows = expire_rows hs (without h rows)

  unfoldable pub expire_sent : List Text → Rows → List (Text × Text) → List (Text × Text)
  expire_sent [] rows before = before
  expire_sent (h ∷ hs) rows before =
      expire_sent hs (without h rows) (sent_by (judge c jc (rows h)) h before)

  unfoldable pub expire_deadline : List Text → Rows → Text → Bool → Bool
  expire_deadline [] rows member before = before
  expire_deadline (h ∷ hs) rows member before =
      expire_deadline hs (without h rows) member
        (if text_eq (encode h) member then scheduled_by (judge c jc (rows h)) before else before)

abbrev pub rows_of : World → Rows
rows_of w k = row_after w.history (single k)

-- The second world is the first one after the keys have expired.
pub record Expires (c : Codec) (cfg : ProcessorConfig) (jc : JoinConfig) (hashes : List Text)
    (w w' : World) : Type 0 where
  pub rows : rows_of w' ≡ expire_rows c jc hashes (rows_of w)
  pub messages :
      sent cfg.egress_topic w'.history
      ≡ expire_sent c jc hashes (rows_of w) (sent cfg.egress_topic w.history)
  pub deadlines :
      (member : Text)
      → scheduled member w'.history
        ≡ expire_deadline c jc hashes (rows_of w) member (scheduled member w.history)

module _ (env : Services) (sound : IsHealthy env) (cfg : ProcessorConfig) (jc : JoinConfig) where
  process_members-Expires :
      (w : World) (hashes : List Text)
      → All IsBytes hashes
      → (w' : World) × (process_members (single_manager cfg jc) (map encode hashes) env w
          ≡ (ok tt, w'))
        × Expires env.codec cfg jc hashes w w'
  unfolding process_members expire_rows expire_sent expire_deadline
  process_members-Expires w [] b =
      (w, refl, record { rows = refl; messages = refl; deadlines = λ m. refl })
  process_members-Expires w (h ∷ hs) b =
      let (w1, e, r, s, d) = member_expires env sound cfg jc w h b.0 in
      let (w', e', x) = process_members-Expires w1 hs b.1 in
      let same : rows_of w1 ≡ without env.codec jc h (rows_of w) = fun_ext r in
      (
        w',
        ground (arith, e, e'),
        record {
          rows = rw (← same) x.rows;
          messages = rw (← same, ← s) x.messages;
          deadlines = λ m. rw (← same, ← (d m)) (x.deadlines m);
        },
      )

  -- In a healthy system, a turn that finds the encodings of some keys in the set ends without an
  -- error, in the world in which these keys have expired one after the other: the rows, the messages
  -- on the egress topic and the set of deadlines are those of the verdicts on their rows.
  pub process_due-Expires :
      (w : World) (hashes : List Text)
      → All IsBytes hashes
      → env.range
          (clock_read (env.now w.history) ∷ w.history)
          timeouts_key
          (unix (env.now w.history))
          100
        ≡ ok (map encode hashes)
      → (w' : World) × (process_due (single_manager cfg jc) env w ≡ (ok tt, w'))
        × Expires env.codec cfg jc hashes w w'
  unfolding process_due single_manager new row_after sent scheduled
  process_due-Expires w hashes b found =
      let now = env.now w.history in
      let w0 : World = record w {
        history =
            ranged timeouts_key (unix now) 100 (ok (map encode hashes))
            ∷ clock_read now
            ∷ w.history;
      } in
      let (w', e, x) = process_members-Expires w0 hashes b in
      (
        w',
        ground (arith, found, e),
        record { rows = x.rows; messages = x.messages; deadlines = x.deadlines },
      )
