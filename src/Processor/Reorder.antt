-- ===== src/Processor/Reorder.antt =====
-- A partition of one key's events, in two orders, in a healthy system.
use confluo.Prelude.{
  Text, ◌≡◌, refl, sym, ◌+◌, none, some, List, [], ◌∷◌, arith, inl, inr, Bool-cases, length,
}
use mathlib.Core.List.{Perm}
use confluo.Prelude.Dict.{Dict}
use confluo.Fault.{Result-cases}
use confluo.Config.{ProcessorConfig, JoinConfig, width}
use confluo.JoinSpec.{Arrival}
use confluo.JoinSpec.Rounds.{gather, AreFresh, last_key}
use confluo.JoinSpec.Order.{gather-AreDistinct, gather-SameMap, AreFresh-perm, length-perm}
use confluo.Projection.{apply}
use confluo.Projection.Order.{insert-AreDistinct, AreDistinct, SameMap, apply_order}
use confluo.World.{Services, World, KafkaRecord, History, executed, update, delete, RowKey, single}
use confluo.World.Views.{IsHealthy, IsJson, row_after, sent, merge, participants_of, row_key_eq}
use confluo.Processor.Join.{IsInner, serve, serve_joins}
use confluo.Processor.Serve.{arrivals_of}
use confluo.Processor.Sound.{IsSound, table_of}
use confluo.Processor.Steps.{joined_text}

-- The participants of a row are a map.
row-AreDistinct : (k : RowKey) (h : History) → AreDistinct (participants_of (row_after h k))
unfolding row_after merge
row-AreDistinct k [] = tt
row-AreDistinct k (executed (update j a) none ∷ h) =
    let ih = row-AreDistinct k h in
    elim (Bool-cases (row_key_eq j k)) [
      | inl same ↦
          rw same (insert-AreDistinct a.stream a.payload (participants_of (row_after h k)) ih)
      | inr other ↦ rw other ih
    ]
row-AreDistinct k (executed (update j a) (some e) ∷ h) = row-AreDistinct k h
row-AreDistinct k (executed (delete j) none ∷ h) =
    let ih = row-AreDistinct k h in
    elim (Bool-cases (row_key_eq j k)) [ inl same ↦ rw same tt | inr other ↦ rw other ih ]
row-AreDistinct k (executed (delete j) (some e) ∷ h) = row-AreDistinct k h
row-AreDistinct k (_ ∷ h) = row-AreDistinct k h

joined_text-SameMap :
    (env : Services) (jc : JoinConfig) (d e : Dict Text)
    → AreDistinct d
    → AreDistinct e
    → SameMap d e
    → joined_text env jc d ≡ joined_text env jc e
joined_text-SameMap env jc d e u v same = elim (Result-cases (apply env.codec d jc.projection)) [
  | inl (out, p) ↦ rw (p, apply_order env.codec d e jc.projection out u v same p) refl
  | inr (x, p) ↦ elim (Result-cases (apply env.codec e jc.projection)) [
    | inl (out, q) ↦ cc (apply_order env.codec e d jc.projection out v u (λ k. sym (same k)) q)
    | inr (y, q) ↦ rw (p, q) refl
  ]
]

module _ (env : Services) (sound : IsHealthy env) (json : IsJson env.codec) (cfg : ProcessorConfig)
    (jc : JoinConfig) (plain : IsInner cfg jc) (w : World) (valid : IsSound env cfg w) where
  -- In the setting of `serve_joins`, two partitions whose events are the same in two orders send the
  -- same joined text, each under the message key of its own last event.
  pub serve_joins_order :
      (recs recs' : List KafkaRecord) (k : Text) (a b : Arrival) (as' bs : List Arrival)
      → arrivals_of env.codec jc recs ≡ a ∷ as'
      → arrivals_of env.codec jc recs' ≡ b ∷ bs
      → Perm (a ∷ as') (b ∷ bs)
      → AreFresh k (table_of w k) (a ∷ as')
      → length (table_of w k) + length (a ∷ as') ≡ width jc
      → (joined : Text) × (sent cfg.egress_topic (serve env cfg jc recs w).history
          ≡ (last_key a as', joined) ∷ sent cfg.egress_topic w.history)
        × (sent cfg.egress_topic (serve env cfg jc recs' w).history
            ≡ (last_key b bs, joined) ∷ sent cfg.egress_topic w.history)
  serve_joins_order recs recs' k a b as' bs e e' p fresh full =
      let d = table_of w k in
      let fresh' = AreFresh-perm k d (a ∷ as') (b ∷ bs) p fresh in
      let full' : length d + length (b ∷ bs) ≡ width jc =
        omega (arith, length-perm (a ∷ as') (b ∷ bs) p) in
      let u = row-AreDistinct (single k) w.history in
      let same =
        joined_text-SameMap env jc (gather d (a ∷ as')) (gather d (b ∷ bs))
          (gather-AreDistinct d (a ∷ as') u) (gather-AreDistinct d (b ∷ bs) u)
          (gather-SameMap k d (a ∷ as') (b ∷ bs) fresh fresh' p) in
      (
        joined_text env jc (gather d (a ∷ as')),
        (serve_joins env sound json cfg jc plain w valid recs k a as' e fresh full).0,
        rw same ((serve_joins env sound json cfg jc plain w valid recs' k b bs e' fresh' full').0),
      )
