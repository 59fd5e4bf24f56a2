-- ===== src/BlockCoordinator/State.antt =====
-- `CoordinatorState` of crates/block-coordinator/src/state.rs: the events that it takes and what
-- each does to the state. `apply` of the source returns `Ok(())` on every path, so here it is the
-- new state alone. Log lines, and `log_discarded_slot_drop`, which only logs, are left out.
use shipstern.Base.{
  ℕ, ◌-◌, Bool, true, false, not, ◌&&◌, ◌||◌, Option, none, some, List, [], ◌∷◌, leb, ltb, min,
  inc64, unwrap_or, if◌then◌else◌,
}
use shipstern.Base.Maps.{Map, Set, nat_ord, get, insert, remove, retain, modify, contains}
use shipstern.BlockCoordinator.Types.{
  Slot, BlockMetadata, DiscardReason, InstructionRecordSortKey, AccountRecordSortKey,
  ParseStatsKind, account_filtered, account_error, AccountCommitAt, confirmed, finalized,
}
use shipstern.BlockCoordinator.Buffer.{
  SlotRecordBuffer, empty_buffer, insert_instruction_record, insert_account_record,
  set_block_metadata, increment_parsed_tx_count, increment_parse_stat,
  increment_account_processed_count, mark_instruction_commitment_reached, mark_as_finalized,
  mark_account_commitment_reached, set_expected_account_count, account_gate_reached,
  is_account_gate_frozen,
}

pub data CoordinatorEvent {ℓ} (R : Type ℓ) : Type ℓ where
  block_frozen : Slot → BlockMetadata → CoordinatorEvent R
  slot_confirmed slot_finalized : Slot → CoordinatorEvent R
  slot_discarded : Slot → DiscardReason → CoordinatorEvent R
  account_event_seen : Slot → CoordinatorEvent R
  instruction_record_parsed : Slot → InstructionRecordSortKey → R → CoordinatorEvent R
  account_record_parsed : Slot → AccountRecordSortKey → R → CoordinatorEvent R
  transaction_parsed : Slot → CoordinatorEvent R
  parse_stats : Slot → ParseStatsKind → CoordinatorEvent R

pub record CoordinatorState {ℓ} (R : Type ℓ) : Type ℓ where
  pub buffer : Map Slot (SlotRecordBuffer R)
  pub discarded_slots : Set Slot
  pub last_instruction_flushed_slot : Option Slot
  pub last_account_flushed_slot : Option Slot
  pub account_event_counts : Map Slot ℕ
  pub account_commit_at : AccountCommitAt
  pub late_account_record_drops : ℕ
  pub late_account_event_drops : ℕ

abbrev pub discarded_slot_retention_behind_flush : ℕ
discarded_slot_retention_behind_flush = 512

-- `last.is_some_and(|last| slot <= last)`
abbrev pub at_or_behind : Slot → Option Slot → Bool
at_or_behind slot none = false
at_or_behind slot (some last) = leb slot last

abbrev pub is_finalized_mode : AccountCommitAt → Bool
is_finalized_mode confirmed = false
is_finalized_mode finalized = true

abbrev pub is_account_stat : ParseStatsKind → Bool
is_account_stat account_filtered = true
is_account_stat account_error = true
is_account_stat _ = false

abbrev pub min_flushed : Option Slot → Option Slot → Option Slot
min_flushed (some a) (some b) = some (min a b)
min_flushed (some a) none = some a
min_flushed none b = b

module _ {ℓ} {R : Type ℓ} where
  unfoldable pub new : AccountCommitAt → CoordinatorState R
  new account_commit_at = record {
    buffer = [];
    discarded_slots = [];
    last_instruction_flushed_slot = none;
    last_account_flushed_slot = none;
    account_event_counts = [];
    account_commit_at = account_commit_at;
    late_account_record_drops = 0;
    late_account_event_drops = 0;
  }

  unfoldable pub last_flushed_slot : CoordinatorState R → Option Slot
  last_flushed_slot st = min_flushed st.last_instruction_flushed_slot st.last_account_flushed_slot

  unfoldable pub oldest_pending_slot : CoordinatorState R → Option Slot
  oldest_pending_slot st = elim st.buffer [ [] ↦ none | (s, b) ∷ rest ↦ some s ]

  unfoldable pub is_already_flushed : CoordinatorState R → Slot → Bool
  is_already_flushed st slot =
      at_or_behind slot st.last_instruction_flushed_slot
      && at_or_behind slot st.last_account_flushed_slot

  unfoldable pub validate_instruction_slot : CoordinatorState R → Slot → Bool
  validate_instruction_slot st slot =
      if contains slot st.discarded_slots
      then false
      else not (at_or_behind slot st.last_instruction_flushed_slot)

  unfoldable pub accounts_already_drained : CoordinatorState R → Slot → Bool
  accounts_already_drained st slot = elim (get slot st.buffer) [
    | none ↦ false
    | some b ↦ b.accounts_drained
  ]

  unfoldable pub late_record_drop : CoordinatorState R → CoordinatorState R
  late_record_drop st = record st { late_account_record_drops = inc64 st.late_account_record_drops }

  -- Whether the event is taken, and the state with the drop counted.
  unfoldable pub validate_account_slot : CoordinatorState R → Slot → Bool × CoordinatorState R
  unfolding accounts_already_drained late_record_drop
  validate_account_slot st slot =
      if contains slot st.discarded_slots
      then (false, st)
      else if at_or_behind slot st.last_account_flushed_slot
      then (false, late_record_drop st)
      else if accounts_already_drained st slot
      then (false, late_record_drop st)
      else (true, st)

  -- `self.buffer.entry(slot).or_default()` and a change through it.
  unfoldable pub with_buffer :
      Slot → (SlotRecordBuffer R → SlotRecordBuffer R) → CoordinatorState R → CoordinatorState R
  with_buffer slot f st = record st { buffer = modify slot empty_buffer f st.buffer }

  unfoldable pub freeze_account_gate : Slot → CoordinatorState R → CoordinatorState R
  unfolding with_buffer
  freeze_account_gate slot st =
      let count : ℕ = unwrap_or (get slot st.account_event_counts) 0 in
      with_buffer slot (λ b. mark_account_commitment_reached (set_expected_account_count count b))
        (record st { account_event_counts = remove slot st.account_event_counts })

  unfoldable pub account_gate_is_frozen : CoordinatorState R → Slot → Bool
  account_gate_is_frozen st slot = elim (get slot st.buffer) [
    | none ↦ false
    | some b ↦ is_account_gate_frozen b
  ]

  unfoldable pub prune_discarded_slots : CoordinatorState R → CoordinatorState R
  unfolding last_flushed_slot
  prune_discarded_slots st = record st {
    discarded_slots = elim (last_flushed_slot st) [
      | none ↦ st.discarded_slots
      | some last ↦
          retain (λ s _. ltb (last - discarded_slot_retention_behind_flush) s) st.discarded_slots
    ];
  }

  unfoldable pub discard_slot : Slot → CoordinatorState R → CoordinatorState R
  unfolding prune_discarded_slots
  discard_slot slot st =
      let marked : CoordinatorState R = record st {
        discarded_slots = insert slot tt st.discarded_slots;
        account_event_counts = remove slot st.account_event_counts;
      } in
      let pruned = prune_discarded_slots marked in
      record pruned { buffer = remove slot pruned.buffer }

  unfoldable pub account_gate_closed : CoordinatorState R → Slot → Bool
  unfolding account_gate_is_frozen account_gate_reached
  account_gate_closed st slot = elim (get slot st.buffer) [
    | none ↦ false
    | some b ↦ account_gate_reached b || account_gate_is_frozen st slot
  ]

  unfoldable pub see_account_event : Slot → CoordinatorState R → CoordinatorState R
  unfolding is_already_flushed account_gate_closed
  see_account_event slot st =
      if is_already_flushed st slot
      then st
      else if contains slot st.discarded_slots
      then st
      else if account_gate_closed st slot
      then record st { late_account_event_drops = inc64 st.late_account_event_drops }
      else record st { account_event_counts = modify slot 0 inc64 st.account_event_counts }

  -- An account record or stat: validated, then one more account processed.
  unfoldable pub take_account :
      Slot → (SlotRecordBuffer R → SlotRecordBuffer R) → CoordinatorState R → CoordinatorState R
  unfolding with_buffer validate_account_slot
  take_account slot f st =
      let (taken, st') = validate_account_slot st slot in
      if taken then with_buffer slot (λ b. increment_account_processed_count (f b)) st' else st'

  unfoldable pub take_instruction :
      Slot → (SlotRecordBuffer R → SlotRecordBuffer R) → CoordinatorState R → CoordinatorState R
  unfolding with_buffer validate_instruction_slot
  take_instruction slot f st =
      if validate_instruction_slot st slot then with_buffer slot f st else st

  unfoldable pub apply : CoordinatorEvent R → CoordinatorState R → CoordinatorState R
  unfolding with_buffer is_already_flushed
  apply (block_frozen slot metadata) st =
      if is_already_flushed st slot then st else with_buffer slot (set_block_metadata metadata) st
  apply (slot_confirmed slot) st =
      if is_already_flushed st slot
      then st
      else (let st' = with_buffer slot mark_instruction_commitment_reached st in
          if is_finalized_mode st'.account_commit_at then st' else freeze_account_gate slot st')
  apply (slot_finalized slot) st =
      if not (is_finalized_mode st.account_commit_at)
      then st
      else if is_already_flushed st slot
      then st
      else (let st' = with_buffer slot mark_as_finalized st in
          if is_finalized_mode st'.account_commit_at then freeze_account_gate slot st' else st')
  apply (slot_discarded slot reason) st = discard_slot slot st
  apply (account_event_seen slot) st = see_account_event slot st
  apply (instruction_record_parsed slot key r) st =
      take_instruction slot (insert_instruction_record key r) st
  apply (account_record_parsed slot key r) st = take_account slot (insert_account_record key r) st
  apply (transaction_parsed slot) st = take_instruction slot increment_parsed_tx_count st
  apply (parse_stats slot kind) st =
      if is_account_stat kind
      then take_account slot (increment_parse_stat kind) st
      else take_instruction slot (increment_parse_stat kind) st

  unfoldable pub apply_all : List (CoordinatorEvent R) → CoordinatorState R → CoordinatorState R
  apply_all [] st = st
  apply_all (e ∷ es) st = apply_all es (apply e st)
