-- ===== src/Kafka/Sink.antt =====
-- The sink of crates/kafka-sink/src/sink.rs: which parser decides about an instruction or an account,
-- and the record that is sent. The decimal and base58 texts and the JSON of a fallback event are
-- parameters, as are the parsers of the programs. Strings are their bytes; a header is its name and value.
use Prim.Native.String.{String}
use shipstern.Base.{
  ℕ, zero, suc, Bool, true, false, Option, none, some, List, [], ◌∷◌, ◌++◌, if◌then◌else◌,
}
use shipstern.Base.Maps.{Map, Set, get}
use shipstern.Base.Maps.Sets.{same, collect}
use shipstern.BlockCoordinator.Keys.{lex_ord}
use shipstern.Core.Logs.{Head, Instructions}
use shipstern.Core.Prefilter.{Bytes, Pubkey}
use shipstern.Kafka.Wire.{
  Index, nonneg, negative, RegisteredSchema, wrap_payload_with_confluent_wire_format,
}

pub data ParseOutcome : Type 0 where
  parsed : Bytes → ParseOutcome
  filtered : ParseOutcome
  error : Bytes → ParseOutcome

-- `InstructionParserWrapper` and `AccountParserWrapper`, for their two inputs.
pub record DynParser (I : Type 0) : Type 0 where
  pub try_parse : I → ParseOutcome
  pub topic : Bytes
  pub program_name : Bytes
  pub program_id : Pubkey
  pub fallback_topic : Option Bytes

pub data RecordKind : Type 0 where
  instruction_record account_record : RecordKind

pub record PreparedRecord : Type 0 where
  pub topic : Bytes
  pub payload : Bytes
  pub key : Bytes
  pub headers : List (String × Bytes)
  pub is_decoded : Bool
  pub kind : RecordKind

pub record RawInstructionEvent : Type 0 where
  pub slot : ℕ
  pub signature : Bytes
  pub ix_index : Bytes
  pub program_id : Bytes
  pub data_ : Bytes

pub record RawAccountEvent : Type 0 where
  pub slot : ℕ
  pub pubkey : Bytes
  pub write_version : ℕ
  pub owner : Bytes
  pub data_ : Bytes

-- The texts that other crates write.
pub record Texts : Type 0 where
  pub decimal : ℕ → Bytes
  pub base58 : Bytes → Bytes
  pub instruction_json : RawInstructionEvent → Bytes
  pub account_json : RawAccountEvent → Bytes

-- An `InstructionUpdate`, with two fields of its shared data; the others are left out.
pub record Instruction : Type 0 where
  pub head : Head
  pub inner : Instructions
  pub log_range : ℕ × ℕ
  pub log_messages : List String
  pub static_keys : List Bytes

pub record Account : Type 0 where
  pub pubkey : Bytes
  pub owner : Bytes
  pub write_version : ℕ
  pub data_ : Bytes
  pub lamports : ℕ
  pub rent_epoch : ℕ
  pub executable : Bool
  pub txn_signature : Option Bytes

pub record AccountUpdate : Type 0 where
  pub slot : ℕ
  pub is_startup : Bool
  pub account : Option Account

pub record KafkaSink : Type 0 where
  pub instruction_parsers : List (DynParser Instruction)
  pub account_parsers : List (DynParser AccountUpdate)
  pub schema_ids : Map Bytes RegisteredSchema

pub record Context : Type 0 where
  pub slot : ℕ
  pub tx_index : ℕ
  pub signature : Bytes
  pub fee_payer : Option Bytes
  pub path : List ℕ

-- `once(p.topic()).chain(p.fallback_topic())`
unfoldable pub own_topics : Bytes → Option Bytes → List Bytes
own_topics topic none = topic ∷ []
own_topics topic (some fallback) = topic ∷ fallback ∷ []

unfoldable pub parser_topics : {I : Type 0} → List (DynParser I) → List Bytes
unfolding own_topics
parser_topics [] = []
parser_topics (p ∷ ps) = own_topics p.topic p.fallback_topic ++ parser_topics ps

-- The set of topics, in their order.
unfoldable pub collect_topics : KafkaSink → Set Bytes
unfolding parser_topics collect
collect_topics sink =
    collect (parser_topics sink.instruction_parsers ++ parser_topics sink.account_parsers)

-- `"{topic}-value"`
unfoldable pub subject : Bytes → Bytes
subject topic = topic ++ (45 ∷ 118 ∷ 97 ∷ 108 ∷ 117 ∷ 101 ∷ [])

unfoldable pub get_schema_for_topic : KafkaSink → Bytes → Option RegisteredSchema
unfolding subject
get_schema_for_topic sink topic = get (subject topic) sink.schema_ids

-- The first message of a schema has an empty array of indices.
unfoldable pub indices : Index → List Index
indices (nonneg zero) = []
indices (nonneg (suc n)) = nonneg (suc n) ∷ []
indices (negative n) = negative n ∷ []

unfoldable pub wrapped : Option RegisteredSchema → Bytes → Bytes
unfolding indices wrap_payload_with_confluent_wire_format
wrapped none raw = raw
wrapped (some schema) raw =
    wrap_payload_with_confluent_wire_format schema.schema_id (indices schema.message_index) raw

unfoldable pub encode_payload_for_topic : KafkaSink → Bytes → Bytes → Bytes
unfolding get_schema_for_topic wrapped
encode_payload_for_topic sink topic raw = wrapped (get_schema_for_topic sink topic) raw

-- What follows an attempt: a record, or the rest of the parsers.
unfoldable pub after_attempt :
    (Bytes → Bytes → PreparedRecord)
    → (Bytes → Bytes → PreparedRecord)
    → Bytes
    → Option Bytes
    → Option PreparedRecord × Bool
    → Option PreparedRecord × Bool
    → ParseOutcome
    → Option PreparedRecord × Bool
after_attempt decoded fallback topic other skipped after_error (parsed raw) =
    (some (decoded raw topic), false)
after_attempt decoded fallback topic other skipped after_error filtered = skipped
after_attempt decoded fallback topic none skipped after_error (error message) = after_error
after_attempt decoded fallback topic (some other) skipped after_error (error message) =
    (some (fallback message other), true)

-- The loop over the parsers, which stops at a parsed value or at an error with a fallback topic.
unfoldable pub first_record :
    {I : Type 0}
    → (Bytes → Bytes → PreparedRecord)
    → (Bytes → Bytes → PreparedRecord)
    → Pubkey
    → I
    → List (DynParser I)
    → Bool
    → Option PreparedRecord × Bool
unfolding after_attempt
first_record decoded fallback program input [] had_error = (none, had_error)
first_record decoded fallback program input (p ∷ ps) had_error =
    let skipped = first_record decoded fallback program input ps had_error in
    let after_error = first_record decoded fallback program input ps true in
    if same program p.program_id
    then after_attempt decoded fallback p.topic p.fallback_topic skipped after_error
        (p.try_parse input)
    else skipped
