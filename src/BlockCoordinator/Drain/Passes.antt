-- ===== src/BlockCoordinator/Drain/Passes.antt =====
-- The passes that `drain_instruction_flushable` and `drain_account_flushable` make over the
-- buffers of
-- crates/block-coordinator/src/state.rs.
use shipstern.Base.{
  ◌≡◌, ap, ◌∙◌, Bool, true, ◌&&◌, ◌||◌, Option, none, some, [], ◌∷◌, ◌++◌, arith, leb,
  if◌then◌else◌,
}
use shipstern.Base.Maps.{Map, Set, nat_ord, insert, contains, values, IsSorted}
use shipstern.Base.Maps.Append.{Before-nil, get-append, insert-append}
use shipstern.BlockCoordinator.Types.{Slot, BlockMetadata, InstructionSlot, AccountSlot, ok}
use shipstern.BlockCoordinator.Buffer.{
  SlotRecordBuffer, instruction_gate_reached, account_gate_reached, parent_slot,
  drain_instruction_records, drain_account_records,
}
use shipstern.BlockCoordinator.State.{CoordinatorState}
use shipstern.BlockCoordinator.Drain.{
  visit_instruction, visit_instruction_buffer, visit_account, visit_account_buffer, after_drain,
  drain_instruction_flushable, drain_account_flushable,
}
use shipstern.BlockCoordinator.Drain.Sweep.{Swept, sweep, visit_as, VisitFinds, LoopIs, loop-sweep}

abbrev pub Buffers {ℓ} : Type ℓ → Type ℓ
Buffers R = Map Slot (SlotRecordBuffer R)

-- A slot may follow the last flushed slot if its parent is flushed or discarded.
abbrev pub follows : Set Slot → Option Slot → Slot → Bool
follows discarded none parent = true
follows discarded (some last) parent = leb parent last || contains parent discarded

module _ {ℓ} {R : Type ℓ} where
  abbrev pub is_due : Set Slot → Option Slot → SlotRecordBuffer R → BlockMetadata → Bool
  is_due discarded last b m =
      leb m.expected_tx_count b.parsed_tx_count
      && (b.instruction_commitment_reached && follows discarded last m.parent_slot)

  abbrev pub instruction_output : Slot → SlotRecordBuffer R → BlockMetadata → InstructionSlot R
  instruction_output slot b m = record {
    slot = slot;
    parent_slot = m.parent_slot;
    blockhash = m.blockhash;
    executed_transaction_count = m.expected_tx_count;
    records = values b.instruction_records;
    filtered_instruction_count = b.filtered_instruction_count;
    failed_instruction_count = b.failed_instruction_count;
    transaction_status_failed_count = b.transaction_status_failed_count;
    transaction_status_succeeded_count = b.transaction_status_succeeded_count;
  }

  -- The slot that an entry gives, if its block is known, its gate open and its parent settled.
  unfoldable pub due :
      Set Slot → Option Slot → Slot → SlotRecordBuffer R → Option (InstructionSlot R)
  due discarded last slot b = elim b.metadata [
    | none ↦ none
    | some m ↦ if is_due discarded last b m then some (instruction_output slot b m) else none
  ]

  unfoldable pub account_due : Option Slot → Slot → SlotRecordBuffer R → Option (AccountSlot R)
  unfolding account_gate_reached drain_account_records
  account_due last slot b =
      if account_gate_reached b then some (drain_account_records slot b).0 else none

  abbrev pub after_instructions : SlotRecordBuffer R → SlotRecordBuffer R
  after_instructions b = record b { instruction_records = []; instructions_drained = true }

  abbrev pub after_accounts : SlotRecordBuffer R → SlotRecordBuffer R
  after_accounts b = record b { account_records = []; accounts_drained = true }

  unfoldable pub sweep_instructions :
      Set Slot → Option Slot → Buffers R → Swept (SlotRecordBuffer R) (InstructionSlot R)
  unfolding sweep
  sweep_instructions discarded =
      sweep (λ b. b.instructions_drained) (due discarded) after_instructions

  unfoldable pub sweep_accounts :
      Option Slot → Buffers R → Swept (SlotRecordBuffer R) (AccountSlot R)
  unfolding sweep
  sweep_accounts = sweep (λ b. b.accounts_drained) account_due after_accounts

  -- The state with the buffers and the frontier that a pass has reached.
  abbrev pub at_instructions : CoordinatorState R → Buffers R → Option Slot → CoordinatorState R
  at_instructions st m last = record st { buffer = m; last_instruction_flushed_slot = last }

  abbrev pub at_accounts : CoordinatorState R → Buffers R → Option Slot → CoordinatorState R
  at_accounts st m last = record st { buffer = m; last_account_flushed_slot = last }

  visit_due :
      (st : CoordinatorState R) (slot : Slot) (b : SlotRecordBuffer R)
      → visit_instruction_buffer st slot b
        ≡ visit_as b.instructions_drained
            (due st.discarded_slots st.last_instruction_flushed_slot slot b)
            (at_instructions st (insert slot (after_instructions b) st.buffer) (some slot))
  unfolding visit_instruction_buffer instruction_gate_reached drain_instruction_records parent_slot
      due visit_as
  visit_due st slot b = ground arith

  visit_account_due :
      (st : CoordinatorState R) (slot : Slot) (b : SlotRecordBuffer R)
      → visit_account_buffer st slot b
        ≡ visit_as b.accounts_drained
            (account_due st.last_account_flushed_slot slot b)
            (at_accounts st (insert slot (after_accounts b) st.buffer) (some slot))
  unfolding visit_account_buffer account_due visit_as
  visit_account_due st slot b = ground arith

  module _ (st : CoordinatorState R) where
    instruction_finds :
        VisitFinds
          (λ b. b.instructions_drained)
          (due st.discarded_slots)
          after_instructions
          visit_instruction
          (at_instructions st)
    unfolding visit_instruction
    instruction_finds behind ahead slot b last below =
        rw (get-append slot b behind ahead below, visit_instruction)
          (visit_due (at_instructions st (behind ++ (slot, b) ∷ ahead) last) slot b
            ∙ rw (insert-append slot b (after_instructions b) behind ahead below))

    account_finds :
        VisitFinds
          (λ b. b.accounts_drained)
          account_due
          after_accounts
          visit_account
          (at_accounts st)
    unfolding visit_account
    account_finds behind ahead slot b last below =
        rw (get-append slot b behind ahead below, visit_account)
          (visit_account_due (at_accounts st (behind ++ (slot, b) ∷ ahead) last) slot b
            ∙ rw (insert-append slot b (after_accounts b) behind ahead below))

    -- What the pass says of the whole drain: it returns, and leaves the state so.
    abbrev pub InstructionDrainIs : Swept (SlotRecordBuffer R) (InstructionSlot R) → Type ℓ
    InstructionDrainIs (outs, m, last) =
        drain_instruction_flushable st ≡ after_drain (ok outs, at_instructions st m last)

    abbrev pub AccountDrainIs : Swept (SlotRecordBuffer R) (AccountSlot R) → Type ℓ
    AccountDrainIs (outs, m, last) =
        drain_account_flushable st ≡ after_drain (ok outs, at_accounts st m last)

    -- With sorted buffers, the instruction drain's loop over the keys of the map, which looks each buffer up and
    -- writes it back, is one pass over the entries that skips the drained ones, flushes while the
    -- next is due after the last flushed slot, and stops at the first that is not.
    pub drain-sweep_instructions :
        IsSorted st.buffer
        → InstructionDrainIs
            (sweep_instructions st.discarded_slots st.last_instruction_flushed_slot st.buffer)
    unfolding drain_instruction_flushable sweep_instructions LoopIs
    drain-sweep_instructions sorted = ap after_drain (
        loop-sweep _ _ _ visit_instruction (at_instructions st) instruction_finds [] st.buffer
          st.last_instruction_flushed_slot (Before-nil st.buffer) sorted)

    -- The account drain's loop over the keys is, with sorted buffers, likewise one pass over the
    -- entries, which never reports an error.
    pub drain-sweep_accounts :
        IsSorted st.buffer → AccountDrainIs (sweep_accounts st.last_account_flushed_slot st.buffer)
    unfolding drain_account_flushable sweep_accounts LoopIs
    drain-sweep_accounts sorted = ap after_drain (
        loop-sweep _ _ _ visit_account (at_accounts st) account_finds [] st.buffer
          st.last_account_flushed_slot (Before-nil st.buffer) sorted)
