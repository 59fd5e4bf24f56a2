-- ===== src/BlockCoordinator/Buffer.antt =====
-- crates/block-coordinator/src/buffer.rs: the records and the gates of one slot. Log lines are
-- left out; a getter of the source is the field itself.
use shipstern.Base.{
  ℕ, ◌+◌, Bool, true, false, ◌&&◌, Option, none, some, [], leb, inc64, length, is_some,
  if◌then◌else◌,
}
use shipstern.Base.Maps.{Map, insert, values}
use shipstern.BlockCoordinator.Types.{
  Slot, BlockMetadata, InstructionRecordSortKey, AccountRecordSortKey, InstructionSlot, AccountSlot,
  ParseStatsKind, instruction_filtered, instruction_error, account_filtered, account_error,
  transaction_status_failed, transaction_status_succeeded,
}
use shipstern.BlockCoordinator.Keys.{instruction_key_ord, account_key_ord}

pub record SlotRecordBuffer {ℓ} (R : Type ℓ) : Type ℓ where
  pub instruction_records : Map InstructionRecordSortKey R
  pub account_records : Map AccountRecordSortKey R
  pub metadata : Option BlockMetadata
  pub parsed_tx_count : ℕ
  pub instruction_commitment_reached : Bool
  pub finalized : Bool
  pub account_commitment_reached : Bool
  pub expected_account_count : Option ℕ
  pub account_processed_count : ℕ
  pub instructions_drained : Bool
  pub accounts_drained : Bool
  pub filtered_instruction_count : ℕ
  pub failed_instruction_count : ℕ
  pub filtered_account_count : ℕ
  pub failed_account_count : ℕ
  pub transaction_status_failed_count : ℕ
  pub transaction_status_succeeded_count : ℕ

module _ {ℓ} {R : Type ℓ} where
  unfoldable pub empty_buffer : SlotRecordBuffer R
  empty_buffer = record {
    instruction_records = [];
    account_records = [];
    metadata = none;
    parsed_tx_count = 0;
    instruction_commitment_reached = false;
    finalized = false;
    account_commitment_reached = false;
    expected_account_count = none;
    account_processed_count = 0;
    instructions_drained = false;
    accounts_drained = false;
    filtered_instruction_count = 0;
    failed_instruction_count = 0;
    filtered_account_count = 0;
    failed_account_count = 0;
    transaction_status_failed_count = 0;
    transaction_status_succeeded_count = 0;
  }

  unfoldable pub insert_instruction_record :
      InstructionRecordSortKey → R → SlotRecordBuffer R → SlotRecordBuffer R
  insert_instruction_record key r b = record b {
    instruction_records = insert key r b.instruction_records;
  }

  unfoldable pub insert_account_record :
      AccountRecordSortKey → R → SlotRecordBuffer R → SlotRecordBuffer R
  insert_account_record key r b = record b { account_records = insert key r b.account_records }

  unfoldable pub set_block_metadata : BlockMetadata → SlotRecordBuffer R → SlotRecordBuffer R
  set_block_metadata metadata b = record b { metadata = some metadata }

  unfoldable pub increment_parsed_tx_count : SlotRecordBuffer R → SlotRecordBuffer R
  increment_parsed_tx_count b = record b { parsed_tx_count = inc64 b.parsed_tx_count }

  unfoldable pub increment_parse_stat : ParseStatsKind → SlotRecordBuffer R → SlotRecordBuffer R
  increment_parse_stat instruction_filtered b = record b {
    filtered_instruction_count = inc64 b.filtered_instruction_count;
  }
  increment_parse_stat instruction_error b = record b {
    failed_instruction_count = inc64 b.failed_instruction_count;
  }
  increment_parse_stat account_filtered b = record b {
    filtered_account_count = inc64 b.filtered_account_count;
  }
  increment_parse_stat account_error b = record b {
    failed_account_count = inc64 b.failed_account_count;
  }
  increment_parse_stat transaction_status_failed b = record b {
    transaction_status_failed_count = inc64 b.transaction_status_failed_count;
  }
  increment_parse_stat transaction_status_succeeded b = record b {
    transaction_status_succeeded_count = inc64 b.transaction_status_succeeded_count;
  }

  unfoldable pub increment_account_processed_count : SlotRecordBuffer R → SlotRecordBuffer R
  increment_account_processed_count b = record b {
    account_processed_count = inc64 b.account_processed_count;
  }

  unfoldable pub mark_instruction_commitment_reached : SlotRecordBuffer R → SlotRecordBuffer R
  mark_instruction_commitment_reached b = record b { instruction_commitment_reached = true }

  unfoldable pub mark_as_finalized : SlotRecordBuffer R → SlotRecordBuffer R
  mark_as_finalized b = record b { finalized = true }

  unfoldable pub mark_account_commitment_reached : SlotRecordBuffer R → SlotRecordBuffer R
  mark_account_commitment_reached b = record b { account_commitment_reached = true }

  -- The first write wins.
  unfoldable pub set_expected_account_count : ℕ → SlotRecordBuffer R → SlotRecordBuffer R
  set_expected_account_count count b =
      if is_some b.expected_account_count
      then b
      else record b { expected_account_count = some count }

  unfoldable pub tx_parse_complete : SlotRecordBuffer R → Bool
  tx_parse_complete b = elim b.metadata [
    | none ↦ false
    | some m ↦ leb m.expected_tx_count b.parsed_tx_count
  ]

  unfoldable pub account_parse_complete : SlotRecordBuffer R → Bool
  account_parse_complete b = elim b.expected_account_count [
    | none ↦ false
    | some n ↦ leb n b.account_processed_count
  ]

  unfoldable pub instruction_gate_reached : SlotRecordBuffer R → Bool
  unfolding tx_parse_complete
  instruction_gate_reached b = tx_parse_complete b && b.instruction_commitment_reached

  unfoldable pub account_gate_reached : SlotRecordBuffer R → Bool
  unfolding account_parse_complete
  account_gate_reached b = account_parse_complete b && b.account_commitment_reached

  unfoldable pub is_account_gate_frozen : SlotRecordBuffer R → Bool
  is_account_gate_frozen b = b.account_commitment_reached && is_some b.expected_account_count

  unfoldable pub slot_ready : SlotRecordBuffer R → Bool
  unfolding instruction_gate_reached account_gate_reached
  slot_ready b = instruction_gate_reached b && account_gate_reached b

  unfoldable pub is_fully_drained : SlotRecordBuffer R → Bool
  is_fully_drained b = b.instructions_drained && b.accounts_drained

  unfoldable pub parent_slot : SlotRecordBuffer R → Option Slot
  parent_slot b = elim b.metadata [ none ↦ none | some m ↦ some m.parent_slot ]

  unfoldable pub record_count : SlotRecordBuffer R → ℕ
  record_count b = length b.instruction_records + length b.account_records

  -- The slot that goes out, and the buffer without its records; nothing with no metadata.
  unfoldable pub drain_instruction_records :
      Slot → SlotRecordBuffer R → Option (InstructionSlot R × SlotRecordBuffer R)
  drain_instruction_records slot b = elim b.metadata [
    | none ↦ none
    | some metadata ↦ some (
      record {
        slot = slot;
        parent_slot = metadata.parent_slot;
        blockhash = metadata.blockhash;
        executed_transaction_count = metadata.expected_tx_count;
        records = values b.instruction_records;
        filtered_instruction_count = b.filtered_instruction_count;
        failed_instruction_count = b.failed_instruction_count;
        transaction_status_failed_count = b.transaction_status_failed_count;
        transaction_status_succeeded_count = b.transaction_status_succeeded_count;
      },
      record b { instruction_records = []; instructions_drained = true },
    )
  ]

  unfoldable pub drain_account_records :
      Slot → SlotRecordBuffer R → AccountSlot R × SlotRecordBuffer R
  drain_account_records slot b = (
    record {
      slot = slot;
      records = values b.account_records;
      decoded_account_count = length b.account_records;
      filtered_account_count = b.filtered_account_count;
      failed_account_count = b.failed_account_count;
    },
    record b { account_records = []; accounts_drained = true },
  )
