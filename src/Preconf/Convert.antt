-- ===== src/Preconf/Convert.antt =====
-- crates/preconf-source/src/convert.rs: from a decoded transaction to the proto shape that the
-- runtime reads. `decode` (wincode) and the vote test of the Solana crates are parameters of the
-- modules that use them. Bytes are numbers, and `u32::from` of a u8 is the number itself. A type of
-- the proto has the prefix Proto.
pub mod Restored
use shipstern.Base.{
  ℕ, zero, suc, ◌≡◌, refl, Bool, true, false, Option, none, some, List, [], ◌∷◌, if◌then◌else◌,
}

abbrev pub Bytes : Type 0
Bytes = List ℕ

pub record MessageHeader : Type 0 where
  pub num_required_signatures : ℕ
  pub num_readonly_signed_accounts : ℕ
  pub num_readonly_unsigned_accounts : ℕ

pub record CompiledInstruction : Type 0 where
  pub program_id_index : ℕ
  pub accounts : List ℕ
  pub input : Bytes

pub record AddressTableLookup : Type 0 where
  pub account_key : Bytes
  pub writable_indexes : List ℕ
  pub readonly_indexes : List ℕ

pub record TransactionConfig : Type 0 where
  pub priority_fee : Option ℕ
  pub compute_unit_limit : Option ℕ
  pub loaded_accounts_data_size_limit : Option ℕ
  pub heap_size : Option ℕ

-- What every message version carries. V1 calls the blockhash `lifetime_specifier`.
pub record Message : Type 0 where
  pub header : MessageHeader
  pub account_keys : List Bytes
  pub recent_blockhash : Bytes
  pub instructions : List CompiledInstruction

pub data VersionedMessage : Type 0 where
  legacy : Message → VersionedMessage
  v0 : Message → List AddressTableLookup → VersionedMessage
  v1 : Message → TransactionConfig → VersionedMessage

pub record VersionedTransaction : Type 0 where
  pub signatures : List Bytes
  pub message : VersionedMessage

pub record ProtoHeader : Type 0 where
  pub num_required_signatures : ℕ
  pub num_readonly_signed_accounts : ℕ
  pub num_readonly_unsigned_accounts : ℕ

pub record ProtoInstruction : Type 0 where
  pub program_id_index : ℕ
  pub accounts : Bytes
  pub data_ : Bytes

pub record ProtoLookup : Type 0 where
  pub account_key : Bytes
  pub writable_indexes : Bytes
  pub readonly_indexes : Bytes

pub record ProtoConfig : Type 0 where
  pub priority_fee : Option ℕ
  pub compute_unit_limit : Option ℕ
  pub loaded_accounts_data_size_limit : Option ℕ
  pub heap_size : Option ℕ

pub record MessageParts : Type 0 where
  pub header : MessageHeader
  pub account_keys : List Bytes
  pub lifetime : Bytes
  pub instructions : List CompiledInstruction
  pub versioned : Bool
  pub address_table_lookups : List ProtoLookup
  pub config : Option ProtoConfig

pub record ProtoMessage : Type 0 where
  pub header : Option ProtoHeader
  pub account_keys : List Bytes
  pub recent_blockhash : Bytes
  pub instructions : List ProtoInstruction
  pub versioned : Bool
  pub address_table_lookups : List ProtoLookup
  pub config : Option ProtoConfig

pub record ProtoTransaction : Type 0 where
  pub signatures : List Bytes
  pub message : Option ProtoMessage

-- The fields that `meta` sets; the others are the defaults.
pub record TransactionStatusMeta : Type 0 where
  pub err : Option Bytes
  pub inner_instructions_none : Bool
  pub log_messages_none : Bool
  pub return_data_none : Bool

unfoldable pub lookup : AddressTableLookup → ProtoLookup
lookup l = record {
  account_key = l.account_key;
  writable_indexes = l.writable_indexes;
  readonly_indexes = l.readonly_indexes;
}

unfoldable pub lookups_of : List AddressTableLookup → List ProtoLookup
unfolding lookup
lookups_of [] = []
lookups_of (l ∷ ls) = lookup l ∷ lookups_of ls

unfoldable pub config_of : TransactionConfig → ProtoConfig
config_of c = record {
  priority_fee = c.priority_fee;
  compute_unit_limit = c.compute_unit_limit;
  loaded_accounts_data_size_limit = c.loaded_accounts_data_size_limit;
  heap_size = c.heap_size;
}

unfoldable pub header_of : MessageHeader → ProtoHeader
header_of h = record {
  num_required_signatures = h.num_required_signatures;
  num_readonly_signed_accounts = h.num_readonly_signed_accounts;
  num_readonly_unsigned_accounts = h.num_readonly_unsigned_accounts;
}

unfoldable pub compiled : CompiledInstruction → ProtoInstruction
compiled ix = record {
  program_id_index = ix.program_id_index;
  accounts = ix.accounts;
  data_ = ix.input;
}

unfoldable pub compiled_each : List CompiledInstruction → List ProtoInstruction
unfolding compiled
compiled_each [] = []
compiled_each (ix ∷ ixs) = compiled ix ∷ compiled_each ixs

unfoldable pub parts : VersionedMessage → MessageParts
unfolding lookups_of config_of
parts (legacy msg) = record {
  header = msg.header;
  account_keys = msg.account_keys;
  lifetime = msg.recent_blockhash;
  instructions = msg.instructions;
  versioned = false;
  address_table_lookups = [];
  config = none;
}
parts (v0 msg lookups) = record {
  header = msg.header;
  account_keys = msg.account_keys;
  lifetime = msg.recent_blockhash;
  instructions = msg.instructions;
  versioned = true;
  address_table_lookups = lookups_of lookups;
  config = none;
}
parts (v1 msg config) = record {
  header = msg.header;
  account_keys = msg.account_keys;
  lifetime = msg.recent_blockhash;
  instructions = msg.instructions;
  versioned = true;
  address_table_lookups = [];
  config = some (config_of config);
}

unfoldable pub transaction : VersionedTransaction → ProtoTransaction
unfolding parts header_of compiled_each
transaction tx =
    let p = parts tx.message in
    record {
      signatures = tx.signatures;
      message = some (record {
        header = some (header_of p.header);
        account_keys = p.account_keys;
        recent_blockhash = p.lifetime;
        instructions = compiled_each p.instructions;
        versioned = p.versioned;
        address_table_lookups = p.address_table_lookups;
        config = p.config;
      });
    }

unfoldable pub meta : Bool → TransactionStatusMeta
meta failed = record {
  err = if failed then some [] else none;
  inner_instructions_none = true;
  log_messages_none = true;
  return_data_none = true;
}

abbrev pub is_legacy : VersionedMessage → Bool
is_legacy (legacy msg) = true
is_legacy _ = false

abbrev pub body : VersionedMessage → Message
body (legacy msg) = msg
body (v0 msg _) = msg
body (v1 msg _) = msg

abbrev pub get_elem? : List Bytes → ℕ → Option Bytes
get_elem? [] i = none
get_elem? (k ∷ ks) zero = some k
get_elem? (k ∷ ks) (suc i) = get_elem? ks i

-- The program of each instruction, less the indexes out of range.
unfoldable pub programs : List Bytes → List CompiledInstruction → List Bytes
programs keys [] = []
programs keys (ix ∷ ixs) = elim (get_elem? keys ix.program_id_index) [
  | none ↦ programs keys ixs
  | some k ↦ k ∷ programs keys ixs
]

unfoldable pub is_vote : (List Bytes → Bool → List Bytes → Bool) → VersionedTransaction → Bool
unfolding programs
is_vote is_simple_vote tx =
    is_simple_vote tx.signatures (is_legacy tx.message)
      (programs (body tx.message).account_keys (body tx.message).instructions)
