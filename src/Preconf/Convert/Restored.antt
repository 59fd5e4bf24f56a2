-- ===== src/Preconf/Convert/Restored.antt =====
-- What crates/preconf-source/src/convert.rs keeps of a transaction, read back from the proto.
use shipstern.Base.{◌≡◌, refl, ap, ◌∙◌, Option, none, some, List, [], ◌∷◌, if◌then◌else◌}
use shipstern.Preconf.Convert.{
  Bytes, MessageHeader, CompiledInstruction, AddressTableLookup, TransactionConfig, Message,
  VersionedMessage, legacy, v0, v1, VersionedTransaction, ProtoHeader, ProtoInstruction,
  ProtoLookup, ProtoConfig, ProtoMessage, ProtoTransaction, lookups_of, compiled_each, transaction,
}

abbrev pub read_lookups : List ProtoLookup → List AddressTableLookup
read_lookups [] = []
read_lookups (l ∷ ls) =
    record {
      account_key = l.account_key;
      writable_indexes = l.writable_indexes;
      readonly_indexes = l.readonly_indexes;
    }
    ∷ read_lookups ls

abbrev pub read_instructions : List ProtoInstruction → List CompiledInstruction
read_instructions [] = []
read_instructions (ix ∷ ixs) =
    record { program_id_index = ix.program_id_index; accounts = ix.accounts; input = ix.data_ }
    ∷ read_instructions ixs

abbrev pub read_config : ProtoConfig → TransactionConfig
read_config c = record {
  priority_fee = c.priority_fee;
  compute_unit_limit = c.compute_unit_limit;
  loaded_accounts_data_size_limit = c.loaded_accounts_data_size_limit;
  heap_size = c.heap_size;
}

abbrev pub read_header : ProtoHeader → MessageHeader
read_header h = record {
  num_required_signatures = h.num_required_signatures;
  num_readonly_signed_accounts = h.num_readonly_signed_accounts;
  num_readonly_unsigned_accounts = h.num_readonly_unsigned_accounts;
}

-- The message version that a proto message stands for.
abbrev pub version : Message → ProtoMessage → VersionedMessage
version msg m = elim m.config [
  | some config ↦ v1 msg (read_config config)
  | none ↦ if m.versioned then v0 msg (read_lookups m.address_table_lookups) else legacy msg
]

-- Read the decoded transaction back from the proto.
abbrev pub read_message : ProtoMessage → Option VersionedMessage
read_message m = elim m.header [
  | none ↦ none
  | some header ↦ some (
      version
        (record {
          header = read_header header;
          account_keys = m.account_keys;
          recent_blockhash = m.recent_blockhash;
          instructions = read_instructions m.instructions;
        })
        m)
]

abbrev pub restore : ProtoTransaction → Option VersionedTransaction
restore p = elim p.message [
  | none ↦ none
  | some m ↦ elim (read_message m) [
    | none ↦ none
    | some message ↦ some (record { signatures = p.signatures; message = message })
  ]
]

read_lookups_lem : (ls : List AddressTableLookup) → read_lookups (lookups_of ls) ≡ ls
unfolding lookups_of
read_lookups_lem [] = refl
read_lookups_lem (l ∷ ls) = ap (◌∷◌ l) (read_lookups_lem ls)

read_instructions_lem :
    (ixs : List CompiledInstruction) → read_instructions (compiled_each ixs) ≡ ixs
unfolding compiled_each
read_instructions_lem [] = refl
read_instructions_lem (ix ∷ ixs) = ap (◌∷◌ ix) (read_instructions_lem ixs)

-- The message with other instructions.
abbrev with : Message → List CompiledInstruction → Message
with msg ixs = record msg { instructions = ixs }

abbrev made : List Bytes → VersionedMessage → Option VersionedTransaction
made s m = some (record { signatures = s; message = m })

-- The proto loses nothing of a transaction: legacy, V0 and V1 messages are told apart, and every
-- field of each, of its header, its instructions, its lookups and its config can be read back.
pub restore-transaction : (tx : VersionedTransaction) → restore (transaction tx) ≡ some tx
unfolding transaction
restore-transaction tx = restored tx.signatures tx.message
  where
    restored :
        (s : List Bytes) (m : VersionedMessage)
        → restore (transaction (record { signatures = s; message = m }))
          ≡ some (record { signatures = s; message = m })
    restored s (legacy msg) =
        ap (λ ixs. made s (legacy (with msg ixs))) (read_instructions_lem msg.instructions)
    restored s (v0 msg lookups) =
        ap (λ ixs. made s (v0 (with msg ixs) (read_lookups (lookups_of lookups))))
          (read_instructions_lem msg.instructions)
        ∙ ap (λ ls. made s (v0 msg ls)) (read_lookups_lem lookups)
    restored s (v1 msg config) =
        ap (λ ixs. made s (v1 (with msg ixs) config)) (read_instructions_lem msg.instructions)
