-- ===== src/BlockCoordinator/Drain.antt =====
-- The two drains of `CoordinatorState`, crates/block-coordinator/src/state.rs: a loop over the
-- slots that the buffer held at its start, oldest first, with the state changed on the way.
pub mod Sweep
pub mod Passes
pub mod Order
use shipstern.Base.{Bool, not, ◌||◌, none, some, List, [], ◌∷◌, ltb, is_some, if◌then◌else◌}
use shipstern.Base.Maps.{nat_ord, get, insert, keys, retain, contains}
use shipstern.BlockCoordinator.Types.{
  Slot, CoordinatorError, ready_slot_missing_metadata, InstructionSlot, AccountSlot, Outcome, ok,
  err, panic,
}
use shipstern.BlockCoordinator.Buffer.{
  SlotRecordBuffer, instruction_gate_reached, account_gate_reached, parent_slot, is_fully_drained,
  drain_instruction_records, drain_account_records,
}
use shipstern.BlockCoordinator.State.{CoordinatorState, at_or_behind, prune_discarded_slots}

-- How a loop goes on from one slot: `break`, `continue`, a push on the output, or out by an error.
pub data Visit {ℓ} (A S : Type ℓ) : Type ℓ where
  stop skip : Visit A S
  flush : A → S → Visit A S
  failed : CoordinatorError → Visit A S
  panicked : Visit A S

-- The loop. An error drops what was flushed; the state stays as the error found it.
module _ {ℓ} {A S : Type ℓ} where
  abbrev pub pushed : A → Outcome (List A) × S → Outcome (List A) × S
  pushed a (ok as', s) = (ok (a ∷ as'), s)
  pushed a (err e, s) = (err e, s)
  pushed a (panic, s) = (panic, s)

  unfoldable pub visit_all : (S → Slot → Visit A S) → List Slot → S → Outcome (List A) × S
  visit_all visit [] s = (ok [], s)
  visit_all visit (slot ∷ slots) s = elim (visit s slot) [
    | stop ↦ (ok [], s)
    | skip ↦ visit_all visit slots s
    | flush a s' ↦ pushed a (visit_all visit slots s')
    | failed e ↦ (err e, s)
    | panicked ↦ (panic, s)
  ]

module _ {ℓ} {R : Type ℓ} where
  unfoldable pub cleanup_fully_drained : CoordinatorState R → CoordinatorState R
  unfolding prune_discarded_slots
  cleanup_fully_drained st =
      let st' =
        prune_discarded_slots
          (record st { buffer = retain (λ _ b. not (is_fully_drained b)) st.buffer }) in
      record st' {
        account_event_counts = elim st'.last_account_flushed_slot [
          | none ↦ st'.account_event_counts
          | some last ↦ retain (λ s _. ltb last s) st'.account_event_counts
        ];
      }

  -- `if !flushed.is_empty() { self.cleanup_fully_drained() }`
  abbrev pub after_drain {κ} :
      {A : Type κ} → Outcome (List A) × CoordinatorState R → Outcome (List A) × CoordinatorState R
  after_drain (ok [], st) = (ok [], st)
  after_drain (ok (a ∷ as'), st) = (ok (a ∷ as'), cleanup_fully_drained st)
  after_drain (err e, st) = (err e, st)
  after_drain (panic, st) = (panic, st)

  -- The parent is flushed or known to be discarded, or nothing was flushed yet.
  abbrev pub parent_ok : CoordinatorState R → Slot → Bool
  parent_ok st parent =
      not (is_some st.last_instruction_flushed_slot)
      || (at_or_behind parent st.last_instruction_flushed_slot
          || contains parent st.discarded_slots)

  unfoldable pub flush_instruction :
      CoordinatorState R
      → Slot
      → SlotRecordBuffer R
      → Visit (InstructionSlot R) (CoordinatorState R)
  flush_instruction st slot b = elim (drain_instruction_records slot b) [
    | none ↦ failed (ready_slot_missing_metadata slot)
    | some (out, b') ↦
        flush out (record st {
          buffer = insert slot b' st.buffer;
          last_instruction_flushed_slot = some slot;
        })
  ]

  unfoldable pub visit_instruction_buffer :
      CoordinatorState R
      → Slot
      → SlotRecordBuffer R
      → Visit (InstructionSlot R) (CoordinatorState R)
  unfolding flush_instruction
  visit_instruction_buffer st slot b =
      if b.instructions_drained || not (instruction_gate_reached b)
      then (if not b.instructions_drained then stop else skip)
      else elim (parent_slot b) [
        | none ↦ failed (ready_slot_missing_metadata slot)
        | some parent ↦ if not (parent_ok st parent) then stop else flush_instruction st slot b
      ]

  unfoldable pub visit_instruction :
      CoordinatorState R → Slot → Visit (InstructionSlot R) (CoordinatorState R)
  unfolding visit_instruction_buffer
  visit_instruction st slot = elim (get slot st.buffer) [
    | none ↦ panicked
    | some b ↦ visit_instruction_buffer st slot b
  ]

  unfoldable pub drain_instruction_flushable :
      CoordinatorState R → Outcome (List (InstructionSlot R)) × CoordinatorState R
  unfolding visit_all visit_instruction
  drain_instruction_flushable st = after_drain (visit_all visit_instruction (keys st.buffer) st)

  unfoldable pub flush_account :
      CoordinatorState R → Slot → SlotRecordBuffer R → Visit (AccountSlot R) (CoordinatorState R)
  flush_account st slot b =
      let (out, b') = drain_account_records slot b in
      flush out
        (record st { buffer = insert slot b' st.buffer; last_account_flushed_slot = some slot })

  unfoldable pub visit_account_buffer :
      CoordinatorState R → Slot → SlotRecordBuffer R → Visit (AccountSlot R) (CoordinatorState R)
  unfolding flush_account
  visit_account_buffer st slot b =
      if b.accounts_drained || not (account_gate_reached b)
      then (if not b.accounts_drained then stop else skip)
      else flush_account st slot b

  unfoldable pub visit_account :
      CoordinatorState R → Slot → Visit (AccountSlot R) (CoordinatorState R)
  unfolding visit_account_buffer
  visit_account st slot = elim (get slot st.buffer) [
    | none ↦ panicked
    | some b ↦ visit_account_buffer st slot b
  ]

  unfoldable pub drain_account_flushable :
      CoordinatorState R → Outcome (List (AccountSlot R)) × CoordinatorState R
  unfolding visit_all visit_account
  drain_account_flushable st = after_drain (visit_all visit_account (keys st.buffer) st)
