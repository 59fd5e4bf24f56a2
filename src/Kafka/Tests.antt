-- ===== src/Kafka/Tests.antt =====
-- A sink with two parsers of one program, of which the first fails, and tests of the wire format.
use shipstern.Base.{ℕ, ◌+◌, ◌≡◌, refl, Bool, true, false, Option, none, some, List, [], ◌∷◌}
use shipstern.Core.Logs.{none_left}
use shipstern.Core.Prefilter.{Bytes}
use shipstern.Kafka.Wire.{nonneg, wrap_payload_with_confluent_wire_format, encode_zigzag}
use shipstern.Kafka.Sink.{
  Texts, KafkaSink, Instruction, AccountUpdate, DynParser, PreparedRecord, parsed, error,
}
use shipstern.Kafka.Records.{parse_instruction, parse_account, path_text}
use shipstern.Kafka.Topics.{within, collect_topics_complete}

abbrev texts : Texts
texts = record {
  decimal = λ n. (48 + n) ∷ [];
  base58 = λ bytes. bytes;
  instruction_json = λ e. e.data_;
  account_json = λ e. e.data_;
}

abbrev failing : DynParser Instruction
failing = record {
  try_parse = λ ix. error ix.head.data_;
  topic = 97 ∷ [];
  program_name = 112 ∷ [];
  program_id = 7 ∷ [];
  fallback_topic = none;
}

abbrev parsing : DynParser Instruction
parsing = record {
  try_parse = λ ix. parsed ix.head.data_;
  topic = 98 ∷ [];
  program_name = 113 ∷ [];
  program_id = 7 ∷ [];
  fallback_topic = none;
}

abbrev falling_back : DynParser AccountUpdate
falling_back = record {
  try_parse = λ acct. error (33 ∷ []);
  topic = 99 ∷ [];
  program_name = 114 ∷ [];
  program_id = 7 ∷ [];
  fallback_topic = some (100 ∷ []);
}

abbrev sink : KafkaSink
sink = record {
  instruction_parsers = failing ∷ parsing ∷ [];
  account_parsers = falling_back ∷ [];
  schema_ids = [];
}

abbrev instruction : Instruction
instruction = record {
  head = record { program = 7 ∷ []; accounts = []; data_ = 1 ∷ 2 ∷ []; path = 0 ∷ [] };
  inner = none_left;
  log_range = (0, 0);
  log_messages = [];
  static_keys = [];
}

abbrev update : AccountUpdate
update = record {
  slot = 1;
  is_startup = false;
  account = some (record {
    pubkey = 5 ∷ [];
    owner = 7 ∷ [];
    write_version = 3;
    data_ = 4 ∷ [];
    lamports = 0;
    rent_epoch = 0;
    executable = false;
    txn_signature = none;
  });
}

abbrev topic_of : Option PreparedRecord × Bool → Option Bytes × Bool
topic_of (none, e) = (none, e)
topic_of (some r, e) = (some r.topic, e)

-- The error of the first parser is forgotten when the second one decodes.
decoded_after_error :
    topic_of (parse_instruction texts sink 1 0 (9 ∷ []) (0 ∷ []) instruction)
    ≡ (some (98 ∷ []), false)
unfolding parse_instruction shipstern.Base.Maps.Sets.same shipstern.BlockCoordinator.Keys.lex
decoded_after_error = refl

account_falls_back : topic_of (parse_account texts sink 1 update) ≡ (some (100 ∷ []), true)
unfolding parse_account shipstern.Base.Maps.Sets.same shipstern.BlockCoordinator.Keys.lex
account_falls_back = refl

path_from_one : path_text texts (0 ∷ 1 ∷ []) ≡ 49 ∷ 46 ∷ 50 ∷ []
unfolding path_text
path_from_one = refl

zigzag_bytes : encode_zigzag (nonneg 150) ≡ 172 ∷ 2 ∷ []
unfolding encode_zigzag
zigzag_bytes = refl

wire_of_second :
    wrap_payload_with_confluent_wire_format 258 (nonneg 1 ∷ []) (9 ∷ [])
    ≡ 0 ∷ 0 ∷ 0 ∷ 1 ∷ 2 ∷ 2 ∷ 2 ∷ 9 ∷ []
unfolding wrap_payload_with_confluent_wire_format
wire_of_second = refl

collect_topics_complete_example :
    (within sink (parse_instruction texts sink 1 0 (9 ∷ []) (0 ∷ []) instruction).0 ≡ true)
    × (within sink (parse_account texts sink 1 update).0 ≡ true)
collect_topics_complete_example =
    collect_topics_complete texts sink 1 0 (9 ∷ []) (0 ∷ []) instruction update
