-- ===== src/Kafka/Records.antt =====
-- The records that crates/kafka-sink/src/sink.rs prepares, with the keys of
-- crates/kafka-sink/src/utils.rs.
use Prim.Native.String.{String}
use shipstern.Base.{ℕ, ◌+◌, ◌%◌, ◌^◌, Bool, true, false, Option, none, some, List, [], ◌∷◌, ◌++◌}
use shipstern.Core.Prefilter.{Bytes}
use shipstern.Kafka.Sink.{
  Texts, KafkaSink, Context, Instruction, Account, AccountUpdate, PreparedRecord,
  instruction_record, account_record, encode_payload_for_topic, first_record,
}

-- `"{a}:{b}:{c}"`
unfoldable pub three_parts : Bytes → Bytes → Bytes → Bytes
three_parts a b c = a ++ (58 ∷ (b ++ (58 ∷ c)))

unfoldable pub first_key : List Bytes → Option Bytes
first_key [] = none
first_key (k ∷ ks) = some k

module _ (texts : Texts) where
  unfoldable pub make_instruction_record_key : ℕ → Bytes → Bytes → Bytes
  unfolding three_parts
  make_instruction_record_key slot signature ix_index =
      three_parts (texts.decimal slot) signature ix_index

  unfoldable pub make_account_record_key : ℕ → Bytes → ℕ → Bytes
  unfolding three_parts
  make_account_record_key slot pubkey write_version =
      three_parts (texts.decimal slot) pubkey (texts.decimal write_version)

  -- The path with indices from 1, joined by dots. An index is a u32.
  unfoldable pub path_text : List ℕ → Bytes
  path_text [] = []
  path_text (i ∷ []) = texts.decimal ((i + 1) % 2 ^ 32)
  path_text (i ∷ j ∷ is) = texts.decimal ((i + 1) % 2 ^ 32) ++ (46 ∷ path_text (j ∷ is))

  unfoldable pub fee_payer_header : Option Bytes → List (String × Bytes)
  fee_payer_header none = []
  fee_payer_header (some payer) = ("fee_payer", texts.base58 payer) ∷ []

  unfoldable pub instruction_base_record : Context → Bytes × List (String × Bytes)
  unfolding make_instruction_record_key path_text fee_payer_header
  instruction_base_record c = (
    make_instruction_record_key c.slot (texts.base58 c.signature) (path_text c.path),
    ("slot", texts.decimal c.slot)
        ∷ ("signature", texts.base58 c.signature)
        ∷ ("tx_index", texts.decimal c.tx_index)
        ∷ ("ix_index", path_text c.path)
        ∷ fee_payer_header c.fee_payer,
  )

  unfoldable pub prepare_decoded_instruction_record :
      KafkaSink → Context → Bytes → Bytes → PreparedRecord
  unfolding instruction_base_record encode_payload_for_topic
  prepare_decoded_instruction_record sink c raw topic = record {
    topic = topic;
    payload = encode_payload_for_topic sink topic raw;
    key = (instruction_base_record c).0;
    headers = (instruction_base_record c).1;
    is_decoded = true;
    kind = instruction_record;
  }

  unfoldable pub prepare_fallback_instruction_record :
      Context → Instruction → Bytes → Bytes → PreparedRecord
  unfolding instruction_base_record path_text
  prepare_fallback_instruction_record c ix message topic = record {
    topic = topic;
    payload = texts.instruction_json (record {
      slot = c.slot;
      signature = texts.base58 c.signature;
      ix_index = path_text c.path;
      program_id = texts.base58 ix.head.program;
      data_ = texts.base58 ix.head.data_;
    });
    key = (instruction_base_record c).0;
    headers =
        (instruction_base_record c).1
        ++ (("program_id", texts.base58 ix.head.program) ∷ ("parse_error", message) ∷ []);
    is_decoded = false;
    kind = instruction_record;
  }

  unfoldable pub account_headers : ℕ → Account → List (String × Bytes)
  account_headers slot a =
      ("slot", texts.decimal slot)
      ∷ ("pubkey", texts.base58 a.pubkey)
      ∷ ("write_version", texts.decimal a.write_version)
      ∷ ("owner", texts.base58 a.owner)
      ∷ []

  unfoldable pub prepare_decoded_account_record :
      KafkaSink → ℕ → Account → Bytes → Bytes → PreparedRecord
  unfolding make_account_record_key account_headers encode_payload_for_topic
  prepare_decoded_account_record sink slot a raw topic = record {
    topic = topic;
    payload = encode_payload_for_topic sink topic raw;
    key = make_account_record_key slot (texts.base58 a.pubkey) a.write_version;
    headers = account_headers slot a;
    is_decoded = true;
    kind = account_record;
  }

  unfoldable pub prepare_fallback_account_record : ℕ → Account → Bytes → Bytes → PreparedRecord
  unfolding make_account_record_key account_headers
  prepare_fallback_account_record slot a message topic = record {
    topic = topic;
    payload = texts.account_json (record {
      slot = slot;
      pubkey = texts.base58 a.pubkey;
      write_version = a.write_version;
      owner = texts.base58 a.owner;
      data_ = texts.base58 a.data_;
    });
    key = make_account_record_key slot (texts.base58 a.pubkey) a.write_version;
    headers = account_headers slot a ++ (("parse_error", message) ∷ []);
    is_decoded = false;
    kind = account_record;
  }

  unfoldable pub parse_instruction :
      KafkaSink → ℕ → ℕ → Bytes → List ℕ → Instruction → Option PreparedRecord × Bool
  unfolding first_record prepare_decoded_instruction_record prepare_fallback_instruction_record
      first_key
  parse_instruction sink slot tx_index signature path ix =
      let c : Context = record {
        slot = slot;
        tx_index = tx_index;
        signature = signature;
        fee_payer = first_key ix.static_keys;
        path = path;
      } in
      first_record (prepare_decoded_instruction_record sink c)
        (prepare_fallback_instruction_record c ix) ix.head.program ix sink.instruction_parsers false

  unfoldable pub parse_inner :
      KafkaSink → ℕ → AccountUpdate → Option Account → Option PreparedRecord × Bool
  unfolding first_record prepare_decoded_account_record prepare_fallback_account_record
  parse_inner sink slot acct none = (none, false)
  parse_inner sink slot acct (some inner) =
      first_record (prepare_decoded_account_record sink slot inner)
        (prepare_fallback_account_record slot inner) inner.owner acct sink.account_parsers false

  unfoldable pub parse_account : KafkaSink → ℕ → AccountUpdate → Option PreparedRecord × Bool
  unfolding parse_inner
  parse_account sink slot acct = parse_inner sink slot acct acct.account
