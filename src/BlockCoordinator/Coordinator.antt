-- ===== src/BlockCoordinator/Coordinator.antt =====
-- `BlockMachineCoordinator` of crates/block-coordinator/src/coordinator.rs: the event loop. The wrapper of yellowstone-block-machine is the
-- parameter `BlocksStateMachine`. `select!` is the order of the list of inputs, and the end of the
-- list is the closing of both channels. An output channel knows how many more sends its receiver
-- takes before it goes away.
pub mod Errors
pub mod Wrapper
pub mod Channel
pub mod Delivery
use shipstern.Base.{
  ℕ, zero, suc, ◌+◌, ◌-◌, ◌%◌, ◌^◌, ◌<◌, ◌≡◌, Bool, true, false, not, Option, none, some, List, [],
  ◌∷◌, ◌++◌, is_some, if◌then◌else◌,
}
use shipstern.BlockCoordinator.Types.{
  Slot, Hash, BlockMetadata, DiscardReason, dead, forked, untracked, incomplete, CoordinatorError,
  instruction_output_channel_closed, account_output_channel_closed, CoordinatorMessage,
  InstructionSlot, AccountSlot, Outcome, ok, err, panic, AccountCommitAt,
}
use shipstern.BlockCoordinator.State.{CoordinatorState, CoordinatorEvent, new, apply_all}
use shipstern.BlockCoordinator.Drain.{drain_instruction_flushable, drain_account_flushable}
unfoldable pub use shipstern.BlockCoordinator.Boundary.{
  pop_all, sum64, convert_output, convert_outputs, convert_dlq, convert_parsed_message, send,
  send_all, deliver,
}
pub use shipstern.BlockCoordinator.Boundary.{
  CommitmentLevel, BlockOutput, frozen_block, slot_status, BlocksStateMachine, Output,
}

module _ {ℓ} (m : BlocksStateMachine) (R : Type ℓ) where
  open m use {
    Wrapper, Update, block_meta, is_base58, handle_new_geyser_event, pop_next_state_machine_output,
    pop_next_dlq, pending_outputs, pending_dlq,
  }

  pub record Coordinator : Type ℓ where
    pub wrapper : Wrapper
    pub state : CoordinatorState R
    pub instruction_output_tx : Option (Output (InstructionSlot R))
    pub account_output_tx : Option (Output (AccountSlot R))
    pub require_tx_gate : Bool

  -- `CoordinatorInput` on one channel, `CoordinatorMessage` on the other.
  pub data Input : Type ℓ where
    geyser_update : Update → Input
    account_event_seen : Slot → Input
    parsed : CoordinatorMessage R → Input

  unfoldable pub new_coordinator :
      Wrapper
      → Option (Output (InstructionSlot R))
      → Option (Output (AccountSlot R))
      → AccountCommitAt
      → Bool
      → Coordinator
  unfolding new
  new_coordinator w instruction_tx account_tx commit_at gate = record {
    wrapper = w;
    state = new commit_at;
    instruction_output_tx = instruction_tx;
    account_output_tx = account_tx;
    require_tx_gate = gate;
  }

  -- A block meta whose hash is not base58.
  unfoldable pub bad_blockhash : Update → Bool
  bad_blockhash u = elim (block_meta u) [ none ↦ false | some p ↦ not (is_base58 p.1) ]

  -- What a refused update leaves: a discard, if it was a block meta.
  unfoldable pub untracked_events : Update → List (CoordinatorEvent R)
  untracked_events u = elim (block_meta u) [
    | none ↦ []
    | some p ↦ CoordinatorEvent.slot_discarded p.0 untracked ∷ []
  ]

  unfoldable pub drain_wrapper : Bool → Wrapper → List (CoordinatorEvent R) × Wrapper
  drain_wrapper gate w =
      let (outputs, w') = pop_all pop_next_state_machine_output (suc (pending_outputs w)) w in
      let (slots, w'') = pop_all pop_next_dlq (suc (pending_dlq w')) w' in
      (convert_outputs gate outputs ++ convert_dlq slots, w'')

  unfoldable pub convert_geyser_update :
      Bool → Update → Wrapper → List (CoordinatorEvent R) × Wrapper
  unfolding bad_blockhash untracked_events drain_wrapper
  convert_geyser_update gate u w =
      if bad_blockhash u
      then ([], w)
      else (let (accepted, w') = handle_new_geyser_event u w in
          if accepted then drain_wrapper gate w' else (untracked_events u, w'))

  unfoldable pub convert_input : Input → Coordinator → List (CoordinatorEvent R) × Coordinator
  unfolding convert_geyser_update
  convert_input (geyser_update u) c =
      let (events, w) = convert_geyser_update c.require_tx_gate u c.wrapper in
      (events, record c { wrapper = w })
  convert_input (account_event_seen slot) c = (CoordinatorEvent.account_event_seen slot ∷ [], c)
  convert_input (parsed msg) c = (convert_parsed_message msg, c)

  unfoldable pub send_instructions :
      Outcome (List (InstructionSlot R)) × CoordinatorState R
      → Coordinator
      → Outcome (Unit {0}) × Coordinator
  send_instructions (ok slots, st) c =
      let (r, out) =
        deliver (λ o. instruction_output_channel_closed o.slot) slots c.instruction_output_tx in
      (r, record c { state = st; instruction_output_tx = out })
  send_instructions (err e, st) c = (err e, record c { state = st })
  send_instructions (panic, st) c = (panic, record c { state = st })

  unfoldable pub flush_instructions_of : Coordinator → Outcome (Unit {0}) × Coordinator
  unfolding send_instructions
  flush_instructions_of c = send_instructions (drain_instruction_flushable c.state) c

  unfoldable pub send_accounts :
      Outcome (List (AccountSlot R)) × CoordinatorState R
      → Coordinator
      → Outcome (Unit {0}) × Coordinator
  send_accounts (ok slots, st) c =
      let (r, out) =
        deliver (λ o. account_output_channel_closed o.slot) slots c.account_output_tx in
      (r, record c { state = st; account_output_tx = out })
  send_accounts (err e, st) c = (err e, record c { state = st })
  send_accounts (panic, st) c = (panic, record c { state = st })

  unfoldable pub flush_accounts_of : Coordinator → Outcome (Unit {0}) × Coordinator
  unfolding send_accounts
  flush_accounts_of c = send_accounts (drain_account_flushable c.state) c

  -- `?` after a step: the next step runs only if it returned.
  abbrev pub and_then :
      Outcome (Unit {0}) × Coordinator
      → (Coordinator → Outcome (Unit {0}) × Coordinator)
      → Outcome (Unit {0}) × Coordinator
  and_then (ok u, c) next = next c
  and_then (err e, c) next = (err e, c)
  and_then (panic, c) next = (panic, c)

  -- The events of one input applied to the state.
  unfoldable pub take_input : Input → Coordinator → Coordinator
  unfolding convert_input
  take_input i c =
      let (events, c') = convert_input i c in record c' { state = apply_all events c'.state }

  -- One round of the loop.
  unfoldable pub handle_input : Input → Coordinator → Outcome (Unit {0}) × Coordinator
  unfolding take_input flush_instructions_of flush_accounts_of
  handle_input i c = and_then (flush_instructions_of (take_input i c)) flush_accounts_of

  unfoldable pub run_inner : List Input → Coordinator → Outcome (Unit {0}) × Coordinator
  run_inner [] c = (ok tt, c)
  run_inner (i ∷ is) c = and_then (handle_input i c) (run_inner is)
