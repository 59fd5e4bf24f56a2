-- ===== src/BlockCoordinator/Cases.antt =====
-- What an event can do to a `CoordinatorState`, case by case: the rules by which every invariant
-- of crates/block-coordinator/src/state.rs is proved.
use shipstern.Base.{
  ℕ, ◌≡◌, refl, ◌∙◌, unwrap_or, true, false, not, ◌⊎◌, inl, inr, arith, Bool-cases, under_if,
  if◌then◌else◌, inc64,
}
use shipstern.Base.Maps.{
  nat_ord, get, remove, contains, modify, IsSorted, insert-IsSorted, get-insert_self,
}
use shipstern.BlockCoordinator.Types.{
  Slot, BlockMetadata, InstructionRecordSortKey, AccountRecordSortKey, ParseStatsKind,
  instruction_filtered, confirmed,
}
use shipstern.BlockCoordinator.Keys.{instruction_key_ord, account_key_ord}
use shipstern.BlockCoordinator.Buffer.{
  SlotRecordBuffer, empty_buffer, insert_instruction_record, insert_account_record,
  set_block_metadata, increment_parsed_tx_count, increment_parse_stat,
  increment_account_processed_count, mark_instruction_commitment_reached, mark_as_finalized,
  mark_account_commitment_reached, set_expected_account_count,
}
use shipstern.BlockCoordinator.State.{
  CoordinatorState, CoordinatorEvent, block_frozen, slot_confirmed, slot_finalized, slot_discarded,
  account_event_seen, instruction_record_parsed, account_record_parsed, transaction_parsed,
  parse_stats, with_buffer, freeze_account_gate, discard_slot, see_account_event, take_account,
  take_instruction, validate_instruction_slot, apply, is_account_stat, is_already_flushed,
  account_gate_closed, late_record_drop, at_or_behind, accounts_already_drained, is_finalized_mode,
}

-- The slot is behind both flush frontiers.
abbrev pub Flushed {ℓ} : {R : Type ℓ} → Slot → CoordinatorState R → Type 0
Flushed slot st =
    (at_or_behind slot st.last_instruction_flushed_slot ≡ true)
    × (at_or_behind slot st.last_account_flushed_slot ≡ true)

-- Where an event may put records: `Placed slot st`. An event that the code drops asks for nothing.
abbrev pub Orderly {ℓ} :
    {R : Type ℓ}
    → (Slot → CoordinatorState R → Type 0)
    → CoordinatorEvent R
    → CoordinatorState R
    → Type 0
Orderly Placed (block_frozen slot _) st = Flushed slot st ⊎ Placed slot st
Orderly Placed (slot_confirmed slot) st = Flushed slot st ⊎ Placed slot st
Orderly Placed (slot_finalized slot) st =
    (st.account_commit_at ≡ confirmed) ⊎ (Flushed slot st ⊎ Placed slot st)
Orderly Placed (slot_discarded slot _) st = Unit
Orderly Placed (account_event_seen slot) st = Unit
Orderly Placed (instruction_record_parsed slot _ _) st =
    (at_or_behind slot st.last_instruction_flushed_slot ≡ true) ⊎ Placed slot st
Orderly Placed (account_record_parsed slot _ _) st =
    (at_or_behind slot st.last_account_flushed_slot ≡ true) ⊎ Placed slot st
Orderly Placed (transaction_parsed slot) st =
    (at_or_behind slot st.last_instruction_flushed_slot ≡ true) ⊎ Placed slot st
Orderly Placed (parse_stats slot kind) st =
    (at_or_behind slot (
        if is_account_stat kind
        then st.last_account_flushed_slot
        else st.last_instruction_flushed_slot)
      ≡ true)
    ⊎ Placed slot st

-- A change of one buffer that drains nothing and keeps its records in order.
pub record Benign {ℓ} {R : Type ℓ} (f : SlotRecordBuffer R → SlotRecordBuffer R) : Type ℓ where
  pub instructions_kept :
      (b : SlotRecordBuffer R) → (f b).instructions_drained ≡ b.instructions_drained
  pub accounts_kept : (b : SlotRecordBuffer R) → (f b).accounts_drained ≡ b.accounts_drained
  pub instructions_in_order :
      (b : SlotRecordBuffer R) → IsSorted b.instruction_records → IsSorted (f b).instruction_records
  pub accounts_in_order :
      (b : SlotRecordBuffer R) → IsSorted b.account_records → IsSorted (f b).account_records

-- What a property of states has to withstand, so that every event keeps it.
pub record Withstands {ℓ} {R : Type ℓ} (Placed : Slot → CoordinatorState R → Type 0)
    (P : CoordinatorState R → Type 0) : Type ℓ where
  pub contained :
      (slot : Slot) (st : CoordinatorState R) → contains slot st.buffer ≡ true → Placed slot st
  pub buffered :
      (slot : Slot) (f : SlotRecordBuffer R → SlotRecordBuffer R) (st : CoordinatorState R)
      → Benign f
      → Placed slot st
      → P st
      → P (with_buffer slot f st)
  pub counted :
      (slot : Slot) (st : CoordinatorState R)
      → P st
      → P (record st { account_event_counts = modify slot 0 inc64 st.account_event_counts })
  pub uncounted :
      (slot : Slot) (st : CoordinatorState R)
      → P st
      → P (record st { account_event_counts = remove slot st.account_event_counts })
  pub late_record : (st : CoordinatorState R) → P st → P (late_record_drop st)
  pub late_event :
      (st : CoordinatorState R)
      → P st
      → P (record st { late_account_event_drops = inc64 st.late_account_event_drops })
  pub discarded : (slot : Slot) (st : CoordinatorState R) → P st → P (discard_slot slot st)

confirmed_mode {ℓ} :
    {R : Type ℓ} (st : CoordinatorState R)
    → st.account_commit_at ≡ confirmed
    → not (is_finalized_mode st.account_commit_at) ≡ true
confirmed_mode st mode = rw mode refl

module _ {ℓ κ} {R : Type ℓ} (P : CoordinatorState R → Type κ) where
  take_instruction_cases :
      (slot : Slot) (f : SlotRecordBuffer R → SlotRecordBuffer R) (st : CoordinatorState R)
      → P st
      → (at_or_behind slot st.last_instruction_flushed_slot ≡ false → P (with_buffer slot f st))
      → P (take_instruction slot f st)
  unfolding take_instruction
  take_instruction_cases slot f st same taken =
      under_if P (validate_instruction_slot st slot) _ _
        (λ h. taken (unfold validate_instruction_slot in ground arith)) (λ _. same)

  take_account_cases :
      (slot : Slot) (f : SlotRecordBuffer R → SlotRecordBuffer R) (st : CoordinatorState R)
      → P st
      → P (late_record_drop st)
      → (at_or_behind slot st.last_account_flushed_slot ≡ false
          → P (with_buffer slot (λ b. increment_account_processed_count (f b)) st))
      → P (take_account slot f st)
  unfolding take_account
  take_account_cases slot f st same late taken =
      elim (Bool-cases (contains slot st.discarded_slots)) [
        | inl gone ↦ rw gone same
        | inr live ↦ elim (Bool-cases (at_or_behind slot st.last_account_flushed_slot)) [
          | inl old ↦ rw (live, old) late
          | inr new ↦ elim (Bool-cases (accounts_already_drained st slot)) [
            | inl drained ↦ rw (live, new, drained) late
            | inr fresh ↦ rw (live, new, fresh) (taken new)
          ]
        ]
      ]

  see_account_event_cases :
      (slot : Slot) (st : CoordinatorState R)
      → P st
      → P (record st { late_account_event_drops = inc64 st.late_account_event_drops })
      → P (record st { account_event_counts = modify slot 0 inc64 st.account_event_counts })
      → P (see_account_event slot st)
  unfolding see_account_event
  see_account_event_cases slot st same late seen =
      under_if P (is_already_flushed st slot) _ _ (λ _. same)
        λ _.
          under_if P (contains slot st.discarded_slots) _ _ (λ _. same)
            λ _. under_if P (account_gate_closed st slot) _ _ (λ _. late) (λ _. seen)

module _ {ℓ} {R : Type ℓ} where
  Benign-drop :
      {f g : SlotRecordBuffer R → SlotRecordBuffer R} → Benign f → Benign g → Benign (λ b. g (f b))
  Benign-drop {f} {g} h k = record {
    instructions_kept = λ b. k.instructions_kept (f b) ∙ h.instructions_kept b;
    accounts_kept = λ b. k.accounts_kept (f b) ∙ h.accounts_kept b;
    instructions_in_order = λ b s. k.instructions_in_order (f b) (h.instructions_in_order b s);
    accounts_in_order = λ b s. k.accounts_in_order (f b) (h.accounts_in_order b s);
  }

  -- The fields that decide are left alone.
  benign :
      (f : SlotRecordBuffer R → SlotRecordBuffer R)
      → ((b : SlotRecordBuffer R)
          → ((f b).instructions_drained ≡ b.instructions_drained)
            × ((f b).accounts_drained ≡ b.accounts_drained)
            × ((f b).instruction_records ≡ b.instruction_records)
            × ((f b).account_records ≡ b.account_records))
      → Benign f
  benign f same = record {
    instructions_kept = λ b. (same b).0;
    accounts_kept = λ b. (same b).1;
    instructions_in_order = λ b s. rw ((same b).2) s;
    accounts_in_order = λ b s. rw ((same b).3) s;
  }

  metadata-Benign : (m : BlockMetadata) → Benign {R = R} (set_block_metadata m)
  unfolding set_block_metadata
  metadata-Benign m = benign _ (λ b. (refl, refl, refl, refl))

  confirm-Benign : Benign {R = R} mark_instruction_commitment_reached
  unfolding mark_instruction_commitment_reached
  confirm-Benign = benign _ (λ b. (refl, refl, refl, refl))

  finalize-Benign : Benign {R = R} mark_as_finalized
  unfolding mark_as_finalized
  finalize-Benign = benign _ (λ b. (refl, refl, refl, refl))

  transaction-Benign : Benign {R = R} increment_parsed_tx_count
  unfolding increment_parsed_tx_count
  transaction-Benign = benign _ (λ b. (refl, refl, refl, refl))

  processed-Benign : Benign {R = R} increment_account_processed_count
  unfolding increment_account_processed_count
  processed-Benign = benign _ (λ b. (refl, refl, refl, refl))

  stat-Benign : (kind : ParseStatsKind) → Benign {R = R} (increment_parse_stat kind)
  unfolding increment_parse_stat
  stat-Benign instruction_filtered = benign _ (λ b. (refl, refl, refl, refl))
  stat-Benign _ = benign _ (λ b. (refl, refl, refl, refl))

  freeze-Benign :
      (n : ℕ)
      → Benign {R = R} (λ b. mark_account_commitment_reached (set_expected_account_count n b))
  unfolding mark_account_commitment_reached set_expected_account_count
  freeze-Benign n = benign _ (λ b. (ground arith, ground arith, ground arith, ground arith))

  instruction-Benign :
      (key : InstructionRecordSortKey) (r : R) → Benign (insert_instruction_record key r)
  unfolding insert_instruction_record
  instruction-Benign key r = record {
    instructions_kept = λ b. refl;
    accounts_kept = λ b. refl;
    instructions_in_order = λ b. insert-IsSorted key r b.instruction_records;
    accounts_in_order = λ b s. s;
  }

  account-Benign : (key : AccountRecordSortKey) (r : R) → Benign (insert_account_record key r)
  unfolding insert_account_record
  account-Benign key r = record {
    instructions_kept = λ b. refl;
    accounts_kept = λ b. refl;
    instructions_in_order = λ b s. s;
    accounts_in_order = λ b. insert-IsSorted key r b.account_records;
  }

  module _ (Placed : Slot → CoordinatorState R → Type 0) (P : CoordinatorState R → Type 0)
      (w : Withstands Placed P) where
    freeze_keeps :
        (slot : Slot) (f : SlotRecordBuffer R → SlotRecordBuffer R) (st : CoordinatorState R)
        → P (with_buffer slot f st)
        → P (freeze_account_gate slot (with_buffer slot f st))
    unfolding freeze_account_gate with_buffer
    freeze_keeps slot f st p =
        w.buffered slot _ _ (freeze-Benign _)
          (w.contained slot _
            (rw (get-insert_self slot (f (unwrap_or (get slot st.buffer) empty_buffer)) st.buffer)))
          (w.uncounted slot _ p)

    take_instruction_keeps :
        (slot : Slot) (f : SlotRecordBuffer R → SlotRecordBuffer R) (st : CoordinatorState R)
        → Benign f
        → (at_or_behind slot st.last_instruction_flushed_slot ≡ true) ⊎ Placed slot st
        → P st
        → P (take_instruction slot f st)
    take_instruction_keeps slot f st h (inl old) p =
        take_instruction_cases P slot f st p (λ e. absurd (cc))
    take_instruction_keeps slot f st h (inr at) p =
        take_instruction_cases P slot f st p (λ _. w.buffered slot f st h at p)

    take_account_keeps :
        (slot : Slot) (f : SlotRecordBuffer R → SlotRecordBuffer R) (st : CoordinatorState R)
        → Benign f
        → (at_or_behind slot st.last_account_flushed_slot ≡ true) ⊎ Placed slot st
        → P st
        → P (take_account slot f st)
    take_account_keeps slot f st h (inl old) p =
        take_account_cases P slot f st p (w.late_record st p) (λ e. absurd (cc))
    take_account_keeps slot f st h (inr at) p =
        take_account_cases P slot f st p (w.late_record st p)
          (λ _. w.buffered slot _ st (Benign-drop h processed-Benign) at p)

    -- The guard on a slot that is flushed already.
    unless_flushed_keeps :
        (slot : Slot) (st taken : CoordinatorState R)
        → P st
        → Flushed slot st ⊎ Placed slot st
        → (Placed slot st → P taken)
        → P (if is_already_flushed st slot then st else taken)
    unfolding is_already_flushed
    unless_flushed_keeps slot st taken p (inl (ix, acct)) h = rw (ix, acct) p
    unless_flushed_keeps slot st taken p (inr here) h =
        under_if P (is_already_flushed st slot) _ _ (λ _. p) (λ _. h here)

    pub apply_keeps :
        (e : CoordinatorEvent R) (st : CoordinatorState R)
        → Orderly Placed e st
        → P st
        → P (apply e st)
    unfolding apply
    apply_keeps (block_frozen slot m) st at p =
        unless_flushed_keeps slot st _ p at
          (λ here. w.buffered slot _ st (metadata-Benign m) here p)
    apply_keeps (slot_confirmed slot) st at p = unless_flushed_keeps slot st _ p at (λ here.
        let q = w.buffered slot _ st confirm-Benign here p in
        under_if P (is_finalized_mode st.account_commit_at) _ _ (λ _. q)
          (λ _. freeze_keeps slot mark_instruction_commitment_reached st q))
    apply_keeps (slot_finalized slot) st (inl mode) p = rw (confirmed_mode st mode) p
    apply_keeps (slot_finalized slot) st (inr at) p =
        under_if P (not (is_finalized_mode st.account_commit_at)) _ _ (λ _. p)
          λ _. unless_flushed_keeps slot st _ p at (λ here.
            let q = w.buffered slot _ st finalize-Benign here p in
            under_if P (is_finalized_mode st.account_commit_at) _ _
              (λ _. freeze_keeps slot mark_as_finalized st q) (λ _. q))
    apply_keeps (slot_discarded slot reason) st at p = w.discarded slot st p
    apply_keeps (account_event_seen slot) st at p =
        see_account_event_cases P slot st p (w.late_event st p) (w.counted slot st p)
    apply_keeps (instruction_record_parsed slot key r) st at p =
        take_instruction_keeps slot _ st (instruction-Benign key r) at p
    apply_keeps (account_record_parsed slot key r) st at p =
        take_account_keeps slot _ st (account-Benign key r) at p
    apply_keeps (transaction_parsed slot) st at p =
        take_instruction_keeps slot _ st transaction-Benign at p
    apply_keeps (parse_stats slot kind) st at p = elim (Bool-cases (is_account_stat kind)) [
      | inl account ↦
          rw account (take_account_keeps slot _ st (stat-Benign kind) (rw account at at) p)
      | inr other ↦
          rw other (take_instruction_keeps slot _ st (stat-Benign kind) (rw other at at) p)
    ]
