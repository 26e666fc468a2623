-- ===== src/Processor/Routing.antt =====
-- The consumer with several configurations: a record is handled under the id in its header.
use confluo.Prelude.{
  ℕ, Text, ◌≡◌, ◌≢◌, refl, sym, ap, ◌∙◌, Option, some, List, [], ◌∷◌, All, All-mono, arith, ◌==◌,
  inl, inr, Bool-cases,
}
use mathlib.Core.Path.{subst}
use confluo.Fault.{ok, Result-cases}
use confluo.Config.{ProcessorConfig, JoinConfig}
use confluo.Consumer.{Handler, handle, Record}
use confluo.Consumer.Run.{
  Resolver, Poll, record_from_kgo, resolver_from_map, get_config_id, handler_of,
}
use confluo.Consumer.Run.Keeps.{Handles, run-Keeps}
use confluo.World.{Codec, Services, World, KafkaRecord, scoped}
use confluo.World.Keeps.{Keeps}
use confluo.World.Views.{Stored, row_after}
use confluo.Processor.{multi_handler, multi_handlers, put_handler, run_multi_config}
use confluo.Processor.Foreign.{RowIs, RowIs-IsCalm, RowIs-KeptByCommits}
use confluo.Processor.Isolation.{multi-handle-Keeps}

module _ (codec : Codec) (cfg : ProcessorConfig) where
  -- An entry has the handler of a configuration under its own id.
  abbrev pub IsOwn : ℕ × Handler → Type 0
  IsOwn (id, h) = (jc : JoinConfig) × (h ≡ multi_handler codec cfg jc) × (jc.config_id ≡ id)

  put_handler-IsOwn :
      (jc : JoinConfig) (m : List (ℕ × Handler))
      → All IsOwn m
      → All IsOwn (put_handler jc.config_id (multi_handler codec cfg jc) m)
  unfolding put_handler
  put_handler-IsOwn jc [] h = ((jc, refl, refl), tt)
  put_handler-IsOwn jc ((j, g) ∷ m) h = elim (Bool-cases (j == jc.config_id)) [
    | inl e ↦ rw e ((jc, refl, ground (arith, e)), h.1)
    | inr e ↦ rw e (h.0, put_handler-IsOwn jc m h.1)
  ]

  pub multi_handlers-IsOwn :
      (jcs : List JoinConfig) (m : List (ℕ × Handler))
      → All IsOwn m
      → All IsOwn (multi_handlers codec cfg jcs m)
  unfolding multi_handlers
  multi_handlers-IsOwn [] m h = h
  multi_handlers-IsOwn (jc ∷ jcs) m h = multi_handlers-IsOwn jcs _ (put_handler-IsOwn jc m h)

  handler_of-IsOwn :
      (id : ℕ) (m : List (ℕ × Handler)) (h : Handler)
      → All IsOwn m
      → handler_of id m ≡ some h
      → IsOwn (id, h)
  unfolding handler_of
  handler_of-IsOwn id [] h a e = cc
  handler_of-IsOwn id ((j, g) ∷ m) h a e = elim (Bool-cases (j == id)) [
    | inl same ↦
        let g' : g ≡ h = ground (arith, same) in
        let (jc, x, y) = a.0 in (jc, sym g' ∙ x, ground (arith, y, same))
    | inr differs ↦ handler_of-IsOwn id m h a.1 (rw differs at e)
  ]

  -- A record that is routed has a handler of the configuration in its header.
  pub routed-IsOwn :
      (m : List (ℕ × Handler)) (r : Record) (h : Handler)
      → All IsOwn m
      → resolver_from_map codec m r ≡ ok h
      → (id : ℕ) × (get_config_id codec r ≡ ok id) × IsOwn (id, h)
  unfolding resolver_from_map
  routed-IsOwn m r h a e = elim (Result-cases (get_config_id codec r)) [
    | inl (id, g) ↦ (id, g, handler_of-IsOwn id m h a (ground (arith, g)))
    | inr (x, g) ↦ absurd (ground (arith, g))
  ]

  -- The header names another configuration, or none.
  abbrev pub IsElsewhere : ℕ → KafkaRecord → Type 0
  IsElsewhere d rec = get_config_id codec (record_from_kgo rec) ≢ ok d

  module _ (d : ℕ) (k : Text) (o : Option Stored) (jcs : List JoinConfig) where
    abbrev get : Resolver
    get = resolver_from_map codec (multi_handlers codec cfg jcs [])

    elsewhere-Handles :
        (rec : KafkaRecord)
        → IsElsewhere d rec
        → Handles (RowIs-IsCalm (scoped d k) o) (RowIs-KeptByCommits (scoped d k) o) get rec
    elsewhere-Handles rec away h e =
        let (id, g, (jc, x, y)) =
          routed-IsOwn (multi_handlers codec cfg jcs []) (record_from_kgo rec) h
            (multi_handlers-IsOwn jcs [] tt) e in
        subst (λ g'. Keeps (RowIs (scoped d k) o) (handle g' (record_from_kgo rec))) (sym x)
          (multi-handle-Keeps codec cfg (scoped d k) o jc (λ same. away (g ∙ ap ok (sym y ∙ same)))
            (record_from_kgo rec))

    multi-run-Keeps :
        (polls : List Poll)
        → All (λ p. All (All (IsElsewhere d)) p.partitions) polls
        → Keeps (RowIs (scoped d k) o) (run_multi_config codec cfg jcs polls)
    unfolding run_multi_config
    multi-run-Keeps polls hs =
        run-Keeps (RowIs-IsCalm (scoped d k) o) (RowIs-KeptByCommits (scoped d k) o) get polls
          (All-mono (λ p. All-mono (All-mono elsewhere-Handles) p.partitions) polls hs)

  -- Whatever the services answer: a consumer of several configurations that is given no record with
  -- some id in its header leaves every row of that id as it was.
  pub run_multi_config_isolated :
      (d : ℕ) (k : Text) (jcs : List JoinConfig) (polls : List Poll)
      → All (λ p. All (All (IsElsewhere d)) p.partitions) polls
      → (env : Services) (w : World)
      → row_after (run_multi_config codec cfg jcs polls env w).1.history (scoped d k)
        ≡ row_after w.history (scoped d k)
  run_multi_config_isolated d k jcs polls hs env w =
      (multi-run-Keeps d k (row_after w.history (scoped d k)) jcs polls hs).at env w refl
