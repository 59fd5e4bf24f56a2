-- ===== src/BlockCoordinator/Types.antt =====
-- crates/block-coordinator/src/types.rs: the data that the coordinator exchanges with the geyser
-- wrapper, the handlers and the output channels. A slot is a u64, a hash its bytes.
use shipstern.Base.{ℕ, Option, List}
use Prim.Native.String.{String}

abbrev pub Slot : Type 0
Slot = ℕ

abbrev pub Hash : Type 0
Hash = List ℕ

pub record BlockMetadata : Type 0 where
  pub parent_slot : Slot
  pub blockhash : Hash
  pub expected_tx_count : ℕ

pub data DiscardReason : Type 0 where
  dead forked untracked incomplete : DiscardReason

-- `Display for DiscardReason`
unfoldable pub label : DiscardReason → String
label dead = "dead"
label forked = "forked"
label untracked = "untracked"
label incomplete = "incomplete"

pub data CoordinatorError : Type 0 where
  two_gate_invariant_violation : Slot → Option Slot → CoordinatorError
  ready_slot_missing_metadata : Slot → CoordinatorError
  instruction_output_channel_closed : Slot → CoordinatorError
  account_output_channel_closed : Slot → CoordinatorError

-- Fallible code: `panic` is an `unwrap` of a missing value.
pub data Outcome {ℓ} (A : Type ℓ) : Type ℓ where
  ok : A → Outcome A
  err : CoordinatorError → Outcome A
  panic : Outcome A

pub data ParseStatsKind : Type 0 where
  instruction_filtered instruction_error account_filtered account_error : ParseStatsKind
  transaction_status_failed transaction_status_succeeded : ParseStatsKind

pub record InstructionRecordSortKey : Type 0 where
  pub tx_index : ℕ
  pub ix_path : List ℕ

pub record AccountRecordSortKey : Type 0 where
  pub write_version : ℕ
  pub pubkey : List ℕ

pub data CoordinatorMessage {ℓ} (R : Type ℓ) : Type ℓ where
  instruction_parsed : Slot → InstructionRecordSortKey → R → CoordinatorMessage R
  account_parsed : Slot → AccountRecordSortKey → R → CoordinatorMessage R
  transaction_parsed : Slot → CoordinatorMessage R
  parse_stats : Slot → ParseStatsKind → CoordinatorMessage R

-- `CoordinatorMessage::slot`
unfoldable pub message_slot {ℓ} : {R : Type ℓ} → CoordinatorMessage R → Slot
message_slot (instruction_parsed slot key record_) = slot
message_slot (account_parsed slot key record_) = slot
message_slot (transaction_parsed slot) = slot
message_slot (parse_stats slot kind) = slot

pub data AccountCommitAt : Type 0 where
  confirmed finalized : AccountCommitAt

pub record InstructionSlot {ℓ} (R : Type ℓ) : Type ℓ where
  pub slot : Slot
  pub parent_slot : Slot
  pub blockhash : Hash
  pub executed_transaction_count : ℕ
  pub records : List R
  pub filtered_instruction_count : ℕ
  pub failed_instruction_count : ℕ
  pub transaction_status_failed_count : ℕ
  pub transaction_status_succeeded_count : ℕ

pub record AccountSlot {ℓ} (R : Type ℓ) : Type ℓ where
  pub slot : Slot
  pub records : List R
  pub decoded_account_count : ℕ
  pub filtered_account_count : ℕ
  pub failed_account_count : ℕ
