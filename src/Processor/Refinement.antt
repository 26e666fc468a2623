-- ===== src/Processor/Refinement.antt =====
-- In a healthy system one call of the handler is one step of the join.
use confluo.Prelude.{
  ap, Text, Bool, true, false, ◌≡◌, none, ◌∷◌, arith, ◌≤◌, text_eq_refl, inl, inr, Bool-cases,
  Option-cases, if◌then◌else◌,
}
use confluo.Prelude.Dict.{insert}
use confluo.Fault.{ok}
use confluo.Config.{ProcessorConfig, JoinConfig, width}
use confluo.Hex.{encode}
use confluo.Keys.{JoinKey}
use confluo.Projection.Total.{apply_ok, Decodes, insert-AllDecode}
use confluo.JoinSpec.{Arrival, is_full, gathered}
use confluo.Consumer.{Record, handle, get_stream_id, payload_of, next_arrival, first_arrival}
use confluo.Consumer.Key.{extract_key}
use confluo.World.{Services, World, Go, queried, bf_exists, single, events_processed_total}
use confluo.World.Views.{IsHealthy, IsJson, row_after, has_item, sent, merge}
use confluo.Processor.Healthy.{plain_handler, maybe_seen_lem}
use confluo.Processor.Arrivals.{first_arrival_lem, next_arrival_complete, next_arrival_incomplete}
use confluo.Processor.Sound.{payload-Decodes, IsSound, table_of}
use confluo.Processor.Steps.{Joins, arrival_of, first-Joins, part-Joins, full-Joins}

module _ (env : Services) (sound : IsHealthy env) (json : IsJson env.codec) (cfg : ProcessorConfig)
    (jc : JoinConfig) (wide : 2 ≤ width jc) where
  -- A key that the filter has not seen has no row.
  pub unseen-row :
      (w : World)
      → IsSound env cfg w
      → (hash : Text) → env.query w.history (bf_exists cfg.redis_bloom_key (encode hash)) ≡ ok false
      → row_after w.history (single hash) ≡ none
  unseen-row w valid hash unseen = elim (Option-cases (row_after w.history (single hash))) [
    | inl e ↦ e
    | inr (s, e) ↦
        cc (
          sound.no_false_negative w.history cfg.redis_bloom_key (encode hash) (valid.told hash s e))
  ]

  -- The filter's answer counts as telling it nothing.
  unfoldable pub asked : World → Text → Bool → World
  asked w hash b = record w {
    history = queried (bf_exists cfg.redis_bloom_key (encode hash)) (ok b) ∷ w.history;
  }

  abbrev pub counted : World → Text → World
  counted w stream = record w { metrics = events_processed_total jc.name stream ∷ w.metrics }

  pub handle_seen :
      (w : World) (r : Record) (stream : Text) (key : JoinKey) (b : Bool)
      → get_stream_id r ≡ ok stream
      → extract_key env.codec jc.key r.value ≡ ok key
      → env.query w.history (bf_exists cfg.redis_bloom_key (encode key.hash)) ≡ ok b
      → handle (plain_handler cfg jc) r env w
        ≡ (if b
              then next_arrival (plain_handler cfg jc) key stream (payload_of r.value) r.key
              else first_arrival (plain_handler cfg jc) key stream (payload_of r.value))
            env
            (asked (counted w stream) key.hash b)
  unfolding handle asked
  handle_seen w r stream key b es ek eq =
      ground (arith, maybe_seen_lem env sound (counted w stream) key.hash cfg.redis_bloom_key b eq)

  pub asked-IsSound :
      (w : World) (hash stream : Text) (b : Bool)
      → IsSound env cfg w
      → IsSound env cfg (asked (counted w stream) hash b)
  unfolding asked row_after has_item
  asked-IsSound w hash stream true valid = record {
    told = λ k s e. ground (arith, valid.told k s e);
    decodes = valid.decodes;
  }
  asked-IsSound w hash stream false valid = record { told = valid.told; decodes = valid.decodes }

  asked-Joins :
      (w w' : World) (hash stream : Text) (b : Bool) (a : Arrival)
      → Joins env cfg jc a (asked (counted w stream) hash b) w'
      → Joins env cfg jc a w w'
  unfolding asked row_after sent
  asked-Joins w w' hash stream b a j = record {
    table = j.table;
    messages = j.messages;
    kept = j.kept;
  }

  pub asked-row :
      (w : World) (hash stream : Text)
      → row_after w.history (single hash) ≡ none
      → row_after (asked (counted w stream) hash false).history (single hash) ≡ none
  unfolding asked row_after
  asked-row w hash stream h = h

  asked-has_item :
      (w : World) (hash : Text)
      → has_item cfg.redis_bloom_key (encode hash) (asked w hash true).history ≡ true
  unfolding asked has_item
  asked-has_item w hash =
      ground (arith, text_eq_refl cfg.redis_bloom_key, text_eq_refl (encode hash))

  -- A call that ends well, in a world that is one step of the join further.
  abbrev pub Succeeds : Go (Unit {0}) → Arrival → World → Type 0
  Succeeds m a w = ((m env w).0 ≡ ok tt) × Joins env cfg jc a w (m env w).1

  succeed :
      (m : Go (Unit {0})) (a : Arrival) (w : World) {w' : World}
      → m env w ≡ (ok tt, w')
      → Joins env cfg jc a w w'
      → Succeeds m a w
  succeed m a w e j = (ap (λ p. p.0) e, rw e j)

  module _ (w : World) (valid : IsSound env cfg w) (key : JoinKey) (stream payload msg_key : Text)
      (d : Decodes env.codec payload) where
    next-Succeeds :
        has_item cfg.redis_bloom_key (encode key.hash) w.history ≡ true
        → Succeeds
            (next_arrival (plain_handler cfg jc) key stream payload msg_key)
            (arrival_of key stream payload msg_key)
            w
    next-Succeeds known =
        elim (Bool-cases
          (is_full (width jc) (table_of w) (arrival_of key stream payload msg_key))) [
            | inl full ↦
                let (out, made, ne) =
                  apply_ok env.codec json
                    (gathered (table_of w) (arrival_of key stream payload msg_key)) jc.projection
                    (insert-AllDecode env.codec stream payload (table_of w key.hash) d
                      (valid.decodes key.hash)) in
                succeed (next_arrival (plain_handler cfg jc) key stream payload msg_key) _ w
                  (next_arrival_complete env sound w cfg jc key stream payload msg_key out
                    (unfold merge in full) (unfold merge in made) ne)
                  (full-Joins env sound w cfg jc key stream payload msg_key valid d out full made)
            | inr part ↦
                succeed (next_arrival (plain_handler cfg jc) key stream payload msg_key) _ w
                  (next_arrival_incomplete env sound w cfg jc key stream payload msg_key
                    (unfold merge in part))
                  (part-Joins env sound w cfg jc key stream payload msg_key valid d part known)
          ]

    first-Succeeds :
        row_after w.history (single key.hash) ≡ none
        → Succeeds
            (first_arrival (plain_handler cfg jc) key stream payload)
            (arrival_of key stream payload msg_key)
            w
    first-Succeeds new =
        succeed (first_arrival (plain_handler cfg jc) key stream payload) _ w
          (first_arrival_lem env sound w cfg jc key stream payload)
          (first-Joins env sound w cfg jc key stream payload msg_key valid d
            (rw new (unfold insert in ground arith)))

  -- The handler's call, whatever the filter answers.
  pub handle-Succeeds :
      (w : World)
      → IsSound env cfg w
      → (r : Record) (stream : Text) (key : JoinKey) → get_stream_id r ≡ ok stream
      → extract_key env.codec jc.key r.value ≡ ok key
      → Succeeds
          (handle (plain_handler cfg jc) r)
          (arrival_of key stream (payload_of r.value) r.key)
          w
  handle-Succeeds w valid r stream key es ek =
      let (b, q) = sound.query_ok w.history (bf_exists cfg.redis_bloom_key (encode key.hash)) in
      let d = payload-Decodes env json jc.key r.value ek in
      elim (Bool-cases b) [
        | inl seen ↦
            let w1 = asked (counted w stream) key.hash true in
            let hs = handle_seen w r stream key true es ek (rw seen at q) in
            let s =
              next-Succeeds w1 (asked-IsSound w key.hash stream true valid) key stream
                (payload_of r.value) r.key d (asked-has_item (counted w stream) key.hash) in
            (rw hs s.0, rw hs (asked-Joins w _ key.hash stream true _ s.1))
        | inr unseen ↦
            let w1 = asked (counted w stream) key.hash false in
            let hs = handle_seen w r stream key false es ek (rw unseen at q) in
            let s =
              first-Succeeds w1 (asked-IsSound w key.hash stream false valid) key stream
                (payload_of r.value) r.key d
                (asked-row w key.hash stream (unseen-row w valid key.hash (rw unseen at q))) in
            (rw hs s.0, rw hs (asked-Joins w _ key.hash stream false _ s.1))
      ]
