-- ===== src/BlockCoordinator/Tests.antt =====
-- Runs of the coordinator's model on small inputs, and the theorems at inputs that meet their
-- hypotheses.
use shipstern.Base.{
  ℕ, zero, ◌<◌, ◌≡◌, refl, true, Option, none, some, List, [], ◌∷◌, ◌++◌, inl, inr, arith, inc64,
  length, All, map,
}
use shipstern.Base.Maps.{Map, values, nat_ord, get, insert, remove, retain, IsSorted}
use shipstern.BlockCoordinator.Types.{
  AccountSlot, Slot, BlockMetadata, dead, confirmed, InstructionRecordSortKey, AccountRecordSortKey,
  Outcome, ok, InstructionSlot,
}
use shipstern.BlockCoordinator.Keys.{instruction_key_ord, lex, instruction_key_lt}
use shipstern.BlockCoordinator.Buffer.{
  SlotRecordBuffer, instruction_gate_reached, account_gate_reached, drain_instruction_records,
  empty_buffer, insert_instruction_record, increment_parsed_tx_count, set_block_metadata,
  mark_instruction_commitment_reached, mark_account_commitment_reached, set_expected_account_count,
  parent_slot, is_fully_drained,
}
use shipstern.BlockCoordinator.State.{
  CoordinatorState, CoordinatorEvent, block_frozen, slot_confirmed, slot_discarded,
  instruction_record_parsed, account_record_parsed, transaction_parsed, new, apply, apply_all,
  with_buffer, is_already_flushed, take_instruction, last_flushed_slot, freeze_account_gate,
  validate_instruction_slot,
}
use shipstern.BlockCoordinator.Drain.{
  visit_all, drain_instruction_flushable, drain_account_flushable, cleanup_fully_drained,
}
use shipstern.BlockCoordinator.Valid.{IsValid, new-IsValid}
use shipstern.BlockCoordinator.Frontier.{Frontiers, new-Frontiers, apply-Frontiers}
use shipstern.BlockCoordinator.Flush.{
  InstructionsFlushed, ix_slots, instructions_return, flush_instructions, AccountsFlushed,
  flush_accounts,
}
use shipstern.BlockCoordinator.Drain.Passes.{
  InstructionDrainIs, sweep_instructions, drain-sweep_instructions,
}
use shipstern.BlockCoordinator.Gates.{
  CompleteFlush, drained_slots_complete, insert_all, last_written, drained_records_in_order,
}
use shipstern.BlockCoordinator.Accounts.{
  expected_accounts, seen_times, frozen_count, discard_is_final, Ignores,
}
use shipstern.BlockCoordinator.Stall.{late_account_record_blocks}
use shipstern.BlockCoordinator.Coordinator.{
  BlocksStateMachine, BlockOutput, CommitmentLevel, pop_all, handle_input, take_input,
  convert_geyser_update, convert_output, convert_outputs, convert_dlq, flush_instructions_of,
  flush_accounts_of, deliver, sum64, send_all, frozen_block, slot_status, Coordinator, Input,
  geyser_update, run_inner, new_coordinator,
}
use shipstern.BlockCoordinator.Coordinator.Errors.{apply_all-IsValid, EndsWell, run_inner-EndsWell}
use shipstern.BlockCoordinator.Coordinator.Delivery.{DeliversInOrder, fresh, run-DeliversInOrder}

abbrev metadata : ℕ → ℕ → BlockMetadata
metadata parent expected = record {
  parent_slot = parent;
  blockhash = [];
  expected_tx_count = expected;
}

abbrev key : ℕ → List ℕ → InstructionRecordSortKey
key tx path = record { tx_index = tx; ix_path = path }

-- Slot 101 is ready before slot 100; the records of slot 100 come out of order.
abbrev events : List (CoordinatorEvent ℕ)
events =
    block_frozen 101 (metadata 100 0)
    ∷ slot_confirmed 101
    ∷ instruction_record_parsed 100 (key 0 (1 ∷ [])) 12
    ∷ instruction_record_parsed 100 (key 0 (0 ∷ 1 ∷ [])) 11
    ∷ instruction_record_parsed 100 (key 0 (0 ∷ [])) 10
    ∷ transaction_parsed 100
    ∷ block_frozen 100 (metadata 99 1)
    ∷ slot_confirmed 100
    ∷ []

busy : CoordinatorState ℕ
busy = apply_all events (new confirmed)

busy-IsValid : IsValid busy
unfolding busy
busy-IsValid = apply_all-IsValid events (new confirmed) (new-IsValid confirmed)

abbrev flushed_of : Outcome (List (InstructionSlot ℕ)) × CoordinatorState ℕ → List ℕ
flushed_of (ok outs, st) = ix_slots outs
flushed_of (_, st) = []

abbrev records_of : Outcome (List (InstructionSlot ℕ)) × CoordinatorState ℕ → List (List ℕ)
records_of (ok outs, st) = map (λ o. o.records) outs
records_of (_, st) = []

-- Out in slot order, with the records in execution order.
busy_flushes :
    (flushed_of (drain_instruction_flushable busy) ≡ 100 ∷ 101 ∷ [])
    × (records_of (drain_instruction_flushable busy) ≡ (10 ∷ 11 ∷ 12 ∷ []) ∷ [] ∷ [])
unfolding busy apply_all new apply take_instruction freeze_account_gate is_already_flushed get
    insert remove retain drain_instruction_flushable instruction_key_lt lex instruction_gate_reached
    inc64 empty_buffer insert_instruction_record increment_parsed_tx_count set_block_metadata
    mark_instruction_commitment_reached mark_account_commitment_reached set_expected_account_count
    parent_slot drain_instruction_records cleanup_fully_drained is_fully_drained
busy_flushes = (refl, refl)

drain-sweep_instructions_example :
    InstructionDrainIs busy
      (sweep_instructions busy.discarded_slots busy.last_instruction_flushed_slot busy.buffer)
drain-sweep_instructions_example = drain-sweep_instructions busy busy-IsValid.buffer_sorted

abbrev busy_outs : List (InstructionSlot ℕ)
busy_outs = (instructions_return busy busy-IsValid).0

drained_slots_complete_example : All (CompleteFlush busy.buffer) busy_outs
drained_slots_complete_example =
    drained_slots_complete busy (instructions_return busy busy-IsValid).0
      (instructions_return busy busy-IsValid).1 busy-IsValid
      (instructions_return busy busy-IsValid).2

drained_records_in_order_example :
    (o : InstructionSlot ℕ) × (b' : SlotRecordBuffer ℕ) × (m : Map InstructionRecordSortKey ℕ)
    × (drain_instruction_records 100 (
          set_block_metadata
            (metadata 99 1)
            (insert_all ((key 0 (1 ∷ []), 12) ∷ (key 0 (0 ∷ []), 10) ∷ []) empty_buffer))
        ≡ some (o, b'))
    × (o.records ≡ values m)
    × IsSorted m
    × ((k : InstructionRecordSortKey)
        → get k m ≡ last_written k ((key 0 (1 ∷ []), 12) ∷ (key 0 (0 ∷ []), 10) ∷ []) none)
drained_records_in_order_example =
    drained_records_in_order ((key 0 (1 ∷ []), 12) ∷ (key 0 (0 ∷ []), 10) ∷ []) (metadata 99 1) 100

frozen_count_example :
    expected_accounts (apply (slot_confirmed 100) (seen_times 3 100 (new {R = ℕ} confirmed))) 100
    ≡ some 3
unfolding new is_already_flushed get expected_accounts
frozen_count_example =
    frozen_count 3 (new {R = ℕ} confirmed) 100
      (record { open_mode = refl; not_flushed = refl; not_discarded = refl; not_frozen = refl })
      (omega arith)

discard_is_final_example :
    (get 100 (apply (slot_discarded 100 dead) busy).buffer ≡ none)
    × (get 100 (apply (slot_discarded 100 dead) busy).account_event_counts ≡ none)
    × ((es : List (CoordinatorEvent ℕ))
        → Ignores (apply_all es (apply (slot_discarded 100 dead) busy)) 100)
unfolding busy apply_all apply take_instruction is_already_flushed with_buffer freeze_account_gate
    new last_flushed_slot get
discard_is_final_example = discard_is_final busy 100 dead busy-IsValid tt

abbrev account_key : AccountRecordSortKey
account_key = record { write_version = 1; pubkey = 7 ∷ [] }

-- Slots 100 and 101 could go out; the record of slot 99 holds both back.
late_account_record_blocks_example :
    drain_instruction_flushable (apply (account_record_parsed 99 account_key 5) busy)
    ≡ (ok [], apply (account_record_parsed 99 account_key 5) busy)
unfolding busy apply_all apply take_instruction is_already_flushed with_buffer freeze_account_gate
    new get insert validate_instruction_slot
late_account_record_blocks_example =
    late_account_record_blocks busy 99 account_key 5 refl refl (refl, (refl, tt))

-- A wrapper that hands its updates straight back.
abbrev echo_pop : List BlockOutput → Option BlockOutput × List BlockOutput
echo_pop [] = (none, [])
echo_pop (o ∷ os) = (some o, os)

echo_pops :
    (w w' : List BlockOutput) (o : BlockOutput) → echo_pop w ≡ (some o, w') → length w' < length w
echo_pops [] w' o e = ground arith
echo_pops (x ∷ w) w' o e = ground arith

abbrev no_dlq : List BlockOutput → Option Slot × List BlockOutput
no_dlq w = (none, w)

no_dlq_pops : (w w' : List BlockOutput) (slot : Slot) → no_dlq w ≡ (some slot, w') → zero < zero
no_dlq_pops w w' slot e = ground arith

abbrev echo : BlocksStateMachine
echo = record {
  Wrapper = List BlockOutput;
  Update = BlockOutput;
  block_meta = λ u. none;
  is_base58 = λ h. true;
  handle_new_geyser_event = λ u w. (true, w ++ u ∷ []);
  pop_next_state_machine_output = echo_pop;
  pop_next_dlq = no_dlq;
  pending_outputs = length;
  pending_dlq = λ w. 0;
  output_pops = echo_pops;
  dlq_pops = no_dlq_pops;
}

abbrev inputs : List (Input echo ℕ)
inputs =
    geyser_update (frozen_block 100 99 [] (0 ∷ []))
    ∷ geyser_update (slot_status 100 CommitmentLevel.confirmed)
    ∷ []

abbrev start : Coordinator echo ℕ
start = new_coordinator echo ℕ [] (fresh (some 5)) (fresh none) confirmed true

start-IsValid : IsValid start.state
unfolding new_coordinator
start-IsValid = new-IsValid confirmed

run_inner-EndsWell_example : EndsWell echo ℕ (run_inner echo ℕ inputs start)
run_inner-EndsWell_example = run_inner-EndsWell echo ℕ inputs start start-IsValid

run-DeliversInOrder_example : DeliversInOrder echo ℕ (run_inner echo ℕ inputs start).1
unfolding new_coordinator run_inner handle_input take_input convert_geyser_update pop_all
    convert_output convert_outputs convert_dlq apply_all apply with_buffer new is_already_flushed
    get insert flush_instructions_of flush_accounts_of drain_instruction_flushable
    drain_account_flushable deliver visit_all sum64 set_block_metadata empty_buffer
    instruction_gate_reached send_all account_gate_reached
run-DeliversInOrder_example =
    run-DeliversInOrder echo ℕ [] (some 5) none confirmed true inputs
      ((inr (inr (refl, refl)), tt), ((inr (inl refl), tt), tt))

flush_instructions_example :
    (outs : List (InstructionSlot ℕ)) × (st' : CoordinatorState ℕ) × InstructionsFlushed start.state
      outs st'
unfolding new_coordinator new
flush_instructions_example = flush_instructions start.state start-IsValid (new-Frontiers confirmed)

flush_accounts_example :
    (outs : List (AccountSlot ℕ)) × (st' : CoordinatorState ℕ) × AccountsFlushed start.state outs
      st'
unfolding new_coordinator new
flush_accounts_example = flush_accounts start.state start-IsValid (new-Frontiers confirmed)

apply-Frontiers_example :
    Frontiers (apply (block_frozen 101 (metadata 100 0)) (new {R = ℕ} confirmed))
unfolding new
apply-Frontiers_example =
    apply-Frontiers (block_frozen 101 (metadata 100 0)) (new {R = ℕ} confirmed)
      (inr (inr (refl, refl))) (new-Frontiers confirmed)
