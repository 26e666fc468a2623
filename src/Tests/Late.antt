-- ===== src/Tests/Late.antt =====
-- A key whose partial join was published, and a late event of it.
use native.Mathlib.Omega.{arith}
use confluo.Prelude.{
  Text, ◌≡◌, refl, codes, none, some, [], ◌∷◌, text_eq, text_eq_iff, text_eq_refl, Bool-cases, inl,
  inr,
}
use confluo.Prelude.Dict.{lookup, insert}
use confluo.Fault.{ok}
use confluo.Config.{ProcessorConfig, width}
use confluo.Hex.{encode}
use confluo.Keys.{JoinKey, composite_key}
use confluo.Projection.{apply}
use confluo.Timeout.{process_member}
use confluo.Consumer.{Record, handle, get_stream_id, find_header}
use confluo.Consumer.Key.{extract_key, key_of}
use confluo.Consumer.Run.{record_from_kgo}
use confluo.World.{World, single, update, executed, commanded, bf_add, sadd}
use confluo.World.Views.{Stored, row_after, has_item, is_member, sent, merge}
use confluo.Processor.{partial_key, single_handler, single_manager}
use confluo.Processor.Sound.{IsSound}
use confluo.Processor.Corrections.{PrintsCorrections, Corrected, parts, handle_corrects}
use confluo.Processor.Lifecycle.{expired_then_late}
use confluo.Tests.Lab.{
  lab, lab-IsHealthy, lab-IsJson, lab-TellsMembers, start, settings, join_partial, event,
  decode_payload,
}

abbrev correcting : ProcessorConfig
correcting = record settings { corrections_topic = codes "fixes" }

lab-PrintsCorrections : PrintsCorrections lab
lab-PrintsCorrections c = (c.payload, refl)

abbrev key : JoinKey
key = record { hash = codes "k"; raw = codes "k" }

-- The key has an event of stream A, and the filter knows it.
abbrev half_joined : World
half_joined = record start {
  history =
      commanded (bf_add (codes "seen") (encode (codes "k"))) none
      ∷ executed
          (update (single (codes "k")) (record {
            join_key_raw = codes "k";
            config_id = some 1;
            stream = codes "A";
            payload = codes "k1";
            arrival = 2;
          }))
          none
      ∷ [];
}

abbrev half : Stored
half = record {
  raw = codes "k";
  config_id = some 1;
  participants = (codes "A", codes "k1") ∷ [];
  arrivals = (codes "A", 2) ∷ [];
}

half_joined-IsSound : IsSound lab correcting half_joined
unfolding row_after has_item merge insert decode_payload
half_joined-IsSound = record {
  told = λ k s e. ground (
    arith,
    text_eq_iff (codes "k") k,
    text_eq_refl (codes "seen"),
    text_eq_refl (encode k),
    text_eq_refl (encode (codes "k")),
  );
  decodes = λ k. elim (Bool-cases (text_eq (codes "k") k)) [
    | inl e ↦ rw e ((_, refl), tt)
    | inr e ↦ rw e tt
  ];
}

abbrev late_event : Record
late_event = record_from_kgo (event (codes "B") (codes "k2"))

-- The key was published in part, and its row is gone.
abbrev published_before : World
published_before = record start {
  history =
      commanded (sadd partial_key (encode (codes "k"))) none
      ∷ commanded (bf_add (codes "seen") (encode (codes "k"))) none
      ∷ [];
}

published_before-IsSound : IsSound lab correcting published_before
unfolding row_after
published_before-IsSound = record { told = λ k s e. ground arith; decodes = λ k. tt }

handle_corrects_example :
    (late : Text) × (w' : World) × (apply lab.codec
        (parts lab lab-IsHealthy lab-TellsMembers correcting join_partial refl refl published_before
          key
          (codes "B")
          (codes "k2"))
        join_partial.projection
      ≡ ok late)
    × (handle (single_handler correcting join_partial) late_event lab published_before
        ≡ (ok tt, w'))
    × Corrected lab lab-IsHealthy lab-TellsMembers correcting join_partial refl refl
        published_before key
        (codes "B")
        (codes "k2")
        late
        w'
unfolding get_stream_id find_header extract_key key_of lookup decode_payload composite_key text_eq
    row_after has_item is_member record_from_kgo encode width insert
handle_corrects_example =
    handle_corrects lab lab-IsHealthy lab-TellsMembers correcting join_partial refl refl lab-IsJson
      lab-PrintsCorrections published_before published_before-IsSound late_event (codes "B") key
      refl refl refl refl (omega arith)

expired_then_late_example :
    (bytes : Text) × (late : Text) × (w1 : World) × (w' : World) × (apply lab.codec
        half.participants join_partial.projection
      ≡ ok bytes)
    × (process_member (single_manager correcting join_partial) (encode key.hash) lab half_joined
        ≡ (ok tt, w1))
    × (sent (codes "joined") w1.history ≡ (key.hash, bytes) ∷ [])
    × (apply lab.codec ((codes "B", codes "k2") ∷ []) join_partial.projection ≡ ok late)
    × (handle (single_handler correcting join_partial) late_event lab w1 ≡ (ok tt, w'))
    × Corrected lab lab-IsHealthy lab-TellsMembers correcting join_partial refl refl w1 key
        (codes "B")
        (codes "k2")
        late
        w'
unfolding get_stream_id find_header extract_key key_of lookup decode_payload composite_key text_eq
    row_after merge insert sent record_from_kgo width
expired_then_late_example =
    expired_then_late lab lab-IsHealthy lab-TellsMembers lab-IsJson lab-PrintsCorrections correcting
      join_partial refl refl refl (omega arith) half_joined half_joined-IsSound key (omega arith)
      half refl (omega arith) late_event (codes "B") refl refl
