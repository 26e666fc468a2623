-- ===== src/Tests/Lab.antt =====
-- A concrete healthy system for the tests: every call is acknowledged, the database and the filter
-- answer from the history, and the codec is a small one with the laws that the theorems ask for.
use confluo.Prelude.{
  ℕ, Text, Bool, true, false, codes, ◌≡◌, refl, Option, none, some, List, [], ◌∷◌, ◌++◌, arith,
}
use confluo.Prelude.Int.{pos}
use confluo.Fault.{Result, ok, err, external}
use confluo.Json.{Object, text}
use confluo.Config.{JoinConfig, ProcessorConfig, inner, partial}
use confluo.World.{Codec, Services, World, History, Query, bf_exists, KafkaRecord, sismember}
use confluo.World.Views.{
  IsHealthy, IsJson, select_reply, row_after, has_item, is_member, TellsMembers,
}

-- A payload is a letter for the key and a rest: `{"id": letter, "v": rest}`.
unfoldable pub decode_payload : Text → Result (Option Object)
decode_payload [] = err (external 1)
decode_payload (c ∷ rest) = ok (some ((codes "id", text (c ∷ [])) ∷ (codes "v", text rest) ∷ []))

-- The values of an object, one after the other.
unfoldable pub print_values : Object → Text
print_values [] = codes "."
print_values ((k, text s) ∷ m) = s ++ print_values m
print_values ((k, v) ∷ m) = print_values m

abbrev pub lab_codec : Codec
lab_codec = record {
  unmarshal = decode_payload;
  marshal = λ m. ok (7 ∷ print_values m);
  marshal_correction = λ c. ok c.payload;
  marshal_item = λ i. ok (i.h ++ 44 ∷ i.j ++ 44 ∷ i.k);
  unmarshal_item = λ s. ok (record { h = s; j = s; k = s });
  sha256 = λ s. s;
  parse_uuid = λ s. err (external 2);
  uuid_string = λ n. n ∷ [];
  error_text = λ e. [];
}

unfoldable pub answer : History → Query → Result Bool
answer h (bf_exists key item) = ok (has_item key item h)
answer h (sismember key item) = ok (is_member key item h)

abbrev pub lab : Services
lab = record {
  codec = lab_codec;
  now = λ h. 5;
  exec = λ h s. none;
  scan = λ h k. select_reply k (row_after h k);
  command = λ h c. none;
  query = answer;
  range = λ h k top n. ok [];
  produce = λ h topic key value. none;
  commit = λ h r. none;
  sleep = λ h d. none;
  cancelled = λ h. none;
  open_session = λ h k. none;
  define = λ h d. none;
  new_client = λ h brokers group topic. none;
  ping = λ h d. none;
}

pub lab-IsHealthy : IsHealthy lab
unfolding answer
lab-IsHealthy = record {
  exec_ok = λ h s. refl;
  command_ok = λ h c. refl;
  produce_ok = λ h t k v. refl;
  commit_ok = λ h r. refl;
  scan_row = λ h k. refl;
  query_ok = answered;
  no_false_negative = λ h key item e. confluo.Prelude.ap ok e;
}
  where
    answered : (h : History) (q : Query) → (b : Bool) × (answer h q ≡ ok b)
    answered h (bf_exists key item) = (has_item key item h, refl)
    answered h (sismember key item) = (is_member key item h, refl)

pub lab-TellsMembers : TellsMembers lab
unfolding answer
lab-TellsMembers = record { member_ok = λ h key item. refl }

pub lab-IsJson : IsJson lab.codec
unfolding decode_payload
lab-IsJson = record {
  marshal_ok = λ m. (7 ∷ print_values m, refl, refl);
  empty_fails = λ m e. ground arith;
}

abbrev pub join_two : JoinConfig
join_two = record {
  config_id = 1;
  name = codes "orders";
  stream_ids = codes "A" ∷ codes "B" ∷ [];
  key = record { field = codes "id"; fields = [] };
  ttl = pos 60;
  projection =
      record { output = codes "a"; stream = codes "A"; field = codes "v" }
      ∷ record { output = codes "b"; stream = codes "B"; field = codes "v" }
      ∷ [];
  egress = inner;
  post_join_delay = pos 0;
}

abbrev pub join_partial : JoinConfig
join_partial = record join_two { egress = partial; post_join_delay = pos 10 }

abbrev pub settings : ProcessorConfig
settings = record {
  kafka_brokers = codes "localhost:9092" ∷ [];
  input_topic = codes "in";
  egress_topic = codes "joined";
  config_path = [];
  config_paths = [];
  scylla_hosts = codes "localhost" ∷ [];
  scylla_keyspace = [];
  corrections_topic = [];
  redis_addr = codes "redis:6379";
  redis_bloom_key = codes "seen";
  join_config = some join_two;
  join_configs = [];
}

abbrev pub start : World
start = record { history = []; metrics = []; pending = λ i. [] }

-- An event of a stream, with the key letter `k`.
abbrev pub event : Text → Text → KafkaRecord
event stream payload = record {
  topic = codes "in";
  partition = 0;
  offset = 0;
  key = codes "m";
  value = some payload;
  headers = (codes "x-stream-id", stream) ∷ [];
}

abbrev pub pair_events : List KafkaRecord
pair_events = event (codes "A") (codes "k1") ∷ event (codes "B") (codes "k2") ∷ []
