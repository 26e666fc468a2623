-- ===== src/Tests/Orphans.antt =====
-- A key with one event, whose deadline passes.
use native.Mathlib.Omega.{arith}
use confluo.Prelude.{Text, codes, ◌≡◌, refl, true, false, none, [], ◌∷◌}
use confluo.Fault.{ok}
use confluo.Hex.{encode}
use confluo.Keys.{JoinKey, composite_key}
use confluo.Projection.{apply}
use confluo.Timeout.{process_member}
use confluo.Consumer.{Record, handle, get_stream_id, find_header}
use confluo.Consumer.Key.{extract_key, key_of}
use confluo.Consumer.Run.{record_from_kgo}
use confluo.World.{World, single}
use confluo.World.Views.{row_after, has_item, sent}
use confluo.Prelude.Dict.{lookup}
use confluo.Prelude.{text_eq}
use confluo.Processor.{single_handler, single_manager}
use confluo.Processor.Join.{IsInner}
use confluo.Processor.Sound.{IsSound}
use confluo.Processor.Expiry.{scheduled}
use confluo.Processor.Orphan.{orphan_published}
use confluo.Config.{JoinConfig, partial, width}
use confluo.Tests.Lab.{
  lab, lab-IsHealthy, lab-IsJson, start, settings, join_two, event, answer, decode_payload,
}

abbrev prompt : JoinConfig
prompt = record join_two { egress = partial }

abbrev orphan : Record
orphan = record_from_kgo (event (codes "A") (codes "k1"))

abbrev key : JoinKey
key = record { hash = codes "k"; raw = codes "k" }

settings-IsInner : IsInner settings prompt
unfolding width
settings-IsInner = record {
  with_redis = refl;
  no_corrections = refl;
  no_delay = refl;
  wide = omega arith;
}

start-IsSound : IsSound lab settings start
unfolding row_after
start-IsSound = record { told = λ k s e. cc e; decodes = λ k. tt }

orphan_published_example :
    (bytes : Text) × (t : World) × (u : World) × (apply lab.codec
        ((codes "A", codes "k1") ∷ [])
        prompt.projection
      ≡ ok bytes)
    × (handle (single_handler settings prompt) orphan lab start ≡ (ok tt, t))
    × (scheduled (encode key.hash) t.history ≡ true)
    × (process_member (single_manager settings prompt) (encode key.hash) lab t ≡ (ok tt, u))
    × (sent settings.egress_topic u.history
        ≡ (key.hash, bytes) ∷ sent settings.egress_topic start.history)
    × (row_after u.history (single key.hash) ≡ none)
    × (scheduled (encode key.hash) u.history ≡ false)
unfolding get_stream_id find_header extract_key key_of lookup decode_payload composite_key text_eq
    record_from_kgo answer has_item
orphan_published_example =
    orphan_published lab lab-IsHealthy lab-IsJson settings prompt settings-IsInner start
      start-IsSound orphan (codes "A") key refl refl refl refl refl (omega arith)
