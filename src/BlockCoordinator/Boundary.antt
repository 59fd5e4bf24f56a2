-- ===== src/BlockCoordinator/Boundary.antt =====
-- The boundary of crates/block-coordinator/src/coordinator.rs: the block state machine that it
-- wraps, the events made of that machine's outputs and of parsed messages, and the output channels.
use shipstern.Base.{
  ℕ, zero, suc, ◌+◌, ◌%◌, ◌^◌, ◌<◌, ◌≡◌, Bool, Option, none, some, List, [], ◌∷◌, ◌++◌,
  if◌then◌else◌,
}
use shipstern.BlockCoordinator.Types.{
  Slot, Hash, dead, forked, incomplete, CoordinatorError, CoordinatorMessage, Outcome, ok, err,
}
use shipstern.BlockCoordinator.State.{CoordinatorEvent}

pub data CommitmentLevel : Type 0 where
  processed confirmed finalized : CommitmentLevel

-- `BlockStateMachineOutput`, with the fields that the coordinator reads; the entries of a frozen
-- block are their transaction counts.
pub data BlockOutput : Type 0 where
  frozen_block : Slot → Slot → Hash → List ℕ → BlockOutput
  slot_status : Slot → CommitmentLevel → BlockOutput
  dead_slot_detected forks_detected : Slot → BlockOutput

-- What the coordinator uses of the wrapper. Each pop takes one item from a finite queue.
pub record BlocksStateMachine : Type 1 where
  pub Wrapper : Type 0
  pub Update : Type 0
  pub block_meta : Update → Option (Slot × List ℕ)
  pub is_base58 : List ℕ → Bool
  pub handle_new_geyser_event : Update → Wrapper → Bool × Wrapper
  pub pop_next_state_machine_output : Wrapper → Option BlockOutput × Wrapper
  pub pop_next_dlq : Wrapper → Option Slot × Wrapper
  pub pending_outputs : Wrapper → ℕ
  pub pending_dlq : Wrapper → ℕ
  pub output_pops :
      (w w' : Wrapper) (o : BlockOutput)
      → pop_next_state_machine_output w ≡ (some o, w')
      → pending_outputs w' < pending_outputs w
  pub dlq_pops :
      (w w' : Wrapper) (s : Slot) → pop_next_dlq w ≡ (some s, w') → pending_dlq w' < pending_dlq w

-- `while let Some(item) = pop()`
unfoldable pub pop_all {ℓ} : {W I : Type ℓ} → (W → Option I × W) → ℕ → W → List I × W
pop_all pop zero w = ([], w)
pop_all pop (suc fuel) w =
    let (item, w') = pop w in
    let more = pop_all pop fuel w' in elim item [ none ↦ ([], w') | some i ↦ (i ∷ more.0, more.1) ]

-- The sum of u64 counts.
unfoldable pub sum64 : List ℕ → ℕ
sum64 [] = 0
sum64 (n ∷ ns) = (n + sum64 ns) % 2 ^ 64

module _ {ℓ} {R : Type ℓ} where
  unfoldable pub convert_output : Bool → BlockOutput → List (CoordinatorEvent R)
  convert_output gate (frozen_block slot parent hash entries) =
      CoordinatorEvent.block_frozen slot (record {
        parent_slot = parent;
        blockhash = hash;
        expected_tx_count = if gate then sum64 entries else 0;
      })
      ∷ []
  convert_output gate (slot_status slot confirmed) = CoordinatorEvent.slot_confirmed slot ∷ []
  convert_output gate (slot_status slot finalized) = CoordinatorEvent.slot_finalized slot ∷ []
  convert_output gate (slot_status slot processed) = []
  convert_output gate (dead_slot_detected slot) = CoordinatorEvent.slot_discarded slot dead ∷ []
  convert_output gate (forks_detected slot) = CoordinatorEvent.slot_discarded slot forked ∷ []

  unfoldable pub convert_outputs : Bool → List BlockOutput → List (CoordinatorEvent R)
  convert_outputs gate [] = []
  convert_outputs gate (o ∷ os) = convert_output gate o ++ convert_outputs gate os

  unfoldable pub convert_dlq : List Slot → List (CoordinatorEvent R)
  convert_dlq [] = []
  convert_dlq (slot ∷ slots) = CoordinatorEvent.slot_discarded slot incomplete ∷ convert_dlq slots

  unfoldable pub convert_parsed_message : CoordinatorMessage R → List (CoordinatorEvent R)
  convert_parsed_message (CoordinatorMessage.instruction_parsed slot key r) =
      CoordinatorEvent.instruction_record_parsed slot key r ∷ []
  convert_parsed_message (CoordinatorMessage.account_parsed slot key r) =
      CoordinatorEvent.account_record_parsed slot key r ∷ []
  convert_parsed_message (CoordinatorMessage.transaction_parsed slot) =
      CoordinatorEvent.transaction_parsed slot ∷ []
  convert_parsed_message (CoordinatorMessage.parse_stats slot kind) =
      CoordinatorEvent.parse_stats slot kind ∷ []

-- A channel to a receiver that takes `room` more messages.
pub record Output {ℓ} (A : Type ℓ) : Type ℓ where
  pub sent : List A
  pub room : ℕ

module _ {ℓ} {A : Type ℓ} where
  -- `send`: refused once the receiver is gone.
  unfoldable pub send : A → Output A → Option (Output A)
  send a out = elim out.room [
    | zero ↦ none
    | suc n ↦ some (record { sent = out.sent ++ a ∷ []; room = n })
  ]

  -- `send(..).await.map_err(..)?` for each slot in turn.
  unfoldable pub send_all :
      (A → CoordinatorError) → List A → Output A → Outcome (Unit {0}) × Output A
  unfolding send
  send_all closed [] out = (ok tt, out)
  send_all closed (a ∷ as') out = elim (send a out) [
    | none ↦ (err (closed a), out)
    | some out' ↦ send_all closed as' out'
  ]

  -- With no channel the drained slots are dropped.
  unfoldable pub deliver :
      (A → CoordinatorError) → List A → Option (Output A) → Outcome (Unit {0}) × Option (Output A)
  deliver closed slots none = (ok tt, none)
  deliver closed slots (some out) = let (r, out') = send_all closed slots out in (r, some out')
