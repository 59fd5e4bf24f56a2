-- ===== src/BlockCoordinator/Gates.antt =====
-- What a flushed slot of crates/block-coordinator/src/state.rs stands for: the gates and the records
-- of its buffer.
use shipstern.Base.{
  ◌≤◌, ◌≡◌, refl, sym, subst, ◌∙◌, true, false, Option, none, some, List, [], ◌∷◌, arith, All,
  if◌then◌else◌,
}
use shipstern.Base.Maps.{Map, Set, nat_ord, get, values, IsSorted, insert-IsSorted, get-insert}
use shipstern.Base.Maps.Entries.{Found, Found-self}
use shipstern.BlockCoordinator.Types.{
  Slot, BlockMetadata, InstructionSlot, InstructionRecordSortKey, ok,
}
use shipstern.BlockCoordinator.Keys.{instruction_key_ord, instruction_key_lt}
use shipstern.BlockCoordinator.Buffer.{
  SlotRecordBuffer, empty_buffer, insert_instruction_record, set_block_metadata,
  drain_instruction_records,
}
use shipstern.BlockCoordinator.State.{CoordinatorState}
use shipstern.BlockCoordinator.Drain.Sweep.{Swept, sweep}
use shipstern.BlockCoordinator.Drain.Order.{sweep_cases}
use shipstern.BlockCoordinator.Drain.{after_drain, drain_instruction_flushable}
use shipstern.BlockCoordinator.Valid.{IsValid}
use shipstern.BlockCoordinator.Frontier.{ix_drained}
use shipstern.BlockCoordinator.Drain.Passes.{
  Buffers, due, sweep_instructions, after_instructions, drain-sweep_instructions,
}

module _ {ℓ} {R : Type ℓ} where
  -- The slot's buffer had all its transactions parsed, was confirmed and not yet drained, and the
  -- slot carries its metadata, its records and its four counters.
  pub record CompleteFlush (m : Buffers R) (o : InstructionSlot R) : Type ℓ where
    pub buffer : SlotRecordBuffer R
    pub buffered : get o.slot m ≡ some buffer
    pub fresh : buffer.instructions_drained ≡ false
    pub confirmed : buffer.instruction_commitment_reached ≡ true
    pub known :
        buffer.metadata
        ≡ some (record {
          parent_slot = o.parent_slot;
          blockhash = o.blockhash;
          expected_tx_count = o.executed_transaction_count;
        })
    pub parsed : o.executed_transaction_count ≤ buffer.parsed_tx_count
    pub records : o.records ≡ values buffer.instruction_records
    pub filtered : o.filtered_instruction_count ≡ buffer.filtered_instruction_count
    pub failed : o.failed_instruction_count ≡ buffer.failed_instruction_count
    pub status_failed : o.transaction_status_failed_count ≡ buffer.transaction_status_failed_count
    pub status_succeeded :
        o.transaction_status_succeeded_count ≡ buffer.transaction_status_succeeded_count

  due_complete :
      (d : Set Slot) (last : Option Slot) (slot : Slot) (m : Buffers R) (b : SlotRecordBuffer R)
      (o : InstructionSlot R)
      → due d last slot b ≡ some o
      → get slot m ≡ some b
      → b.instructions_drained ≡ false
      → CompleteFlush m o
  unfolding due
  due_complete d last slot m b o e found fresh = record {
    buffer = b;
    buffered = (rw (same) found);
    fresh = fresh;
    confirmed = ground arith;
    known = ground arith;
    parsed = ground arith;
    records = ground arith;
    filtered = ground arith;
    failed = ground arith;
    status_failed = ground arith;
    status_succeeded = ground arith;
  }
    where
      same : o.slot ≡ slot
      same = ground arith

  AllComplete : Buffers R → Swept (SlotRecordBuffer R) (InstructionSlot R) → Type ℓ
  AllComplete whole (outs, m, last) = All (CompleteFlush whole) outs

  sweep_complete :
      (whole : Buffers R) (d : Set Slot) (last : Option Slot) (m : Buffers R)
      → Found whole m
      → AllComplete whole (sweep ix_drained (due d) after_instructions last m)
  unfolding AllComplete sweep
  sweep_complete whole d last [] f = tt
  sweep_complete whole d last ((slot, b) ∷ m) f =
      sweep_cases ix_drained (due d) after_instructions (AllComplete whole) last slot b m
        (λ _. sweep_complete whole d last m f.1) (λ _. tt)
        (λ fresh o e. (
          due_complete d last slot whole b o e f.0 fresh,
          sweep_complete whole d (some slot) m f.1,
        ))

  -- Each slot that an instruction drain returns from a valid state was buffered, not drained
  -- before, confirmed and fully parsed, and it carries the parent, the blockhash and the expected
  -- count of its metadata and the records and the four counters of its buffer.
  pub drained_slots_complete :
      (st : CoordinatorState R) (outs : List (InstructionSlot R)) (st' : CoordinatorState R)
      → IsValid st
      → drain_instruction_flushable st ≡ (ok outs, st')
      → All (CompleteFlush st.buffer) outs
  unfolding AllComplete sweep_instructions
  drained_slots_complete st outs st' v e =
      subst (All (CompleteFlush st.buffer))
        (same_outs _ _ _ _ (sym (drain-sweep_instructions st v.buffer_sorted) ∙ e))
        (sweep_complete st.buffer st.discarded_slots st.last_instruction_flushed_slot st.buffer
          (Found-self st.buffer v.buffer_sorted))
    where
      same_outs :
          (xs ys : List (InstructionSlot R)) (s t : CoordinatorState R)
          → after_drain (ok xs, s) ≡ (ok ys, t)
          → xs ≡ ys
      same_outs [] ys s t e = ground arith
      same_outs (x ∷ xs) ys s t e = ground arith

  -- The records of a slot after some inserts, the last on the right.
  unfoldable pub insert_all :
      List (InstructionRecordSortKey × R) → SlotRecordBuffer R → SlotRecordBuffer R
  unfolding insert_instruction_record
  insert_all [] b = b
  insert_all ((key, r) ∷ rest) b = insert_all rest (insert_instruction_record key r b)

  -- The record that the last insert under a key has left.
  unfoldable pub last_written :
      InstructionRecordSortKey → List (InstructionRecordSortKey × R) → Option R → Option R
  last_written k [] before = before
  last_written k ((key, r) ∷ rest) before = last_written k rest (
      if instruction_key_lt key k
      then before
      else if instruction_key_lt k key
      then before
      else some r)

  insert_all-IsSorted :
      (kvs : List (InstructionRecordSortKey × R)) (b : SlotRecordBuffer R)
      → IsSorted b.instruction_records
      → IsSorted (insert_all kvs b).instruction_records
  unfolding insert_all
  insert_all-IsSorted [] b s = s
  insert_all-IsSorted ((key, r) ∷ rest) b s =
      insert_all-IsSorted rest _ (insert-IsSorted key r b.instruction_records s)

  get-insert_all :
      (k : InstructionRecordSortKey) (kvs : List (InstructionRecordSortKey × R))
      (b : SlotRecordBuffer R)
      → get k (insert_all kvs b).instruction_records
        ≡ last_written k kvs (get k b.instruction_records)
  unfolding insert_all last_written
  get-insert_all k [] b = refl
  get-insert_all k ((key, r) ∷ rest) b =
      get-insert_all k rest (insert_instruction_record key r b)
      ∙ rw (get-insert key k r b.instruction_records)

  -- Whatever records a fresh slot has taken, in whatever order, a drain gives one record for each
  -- key, the last one that came, in the order of (transaction index, instruction path).
  pub drained_records_in_order :
      (kvs : List (InstructionRecordSortKey × R)) (metadata : BlockMetadata) (slot : Slot)
      → (o : InstructionSlot R) × (b' : SlotRecordBuffer R) × (m : Map InstructionRecordSortKey R)
        × (drain_instruction_records slot
              (set_block_metadata metadata (insert_all kvs empty_buffer))
            ≡ some (o, b'))
        × (o.records ≡ values m)
        × IsSorted m
        × ((k : InstructionRecordSortKey) → get k m ≡ last_written k kvs none)
  unfolding drain_instruction_records set_block_metadata
  drained_records_in_order kvs metadata slot = (
    _,
    _,
    (insert_all kvs empty_buffer).instruction_records,
    refl,
    refl,
    unfold empty_buffer in insert_all-IsSorted kvs empty_buffer tt,
    λ k. get-insert_all k kvs empty_buffer ∙ empty_get k kvs,
  )
    where
      empty_get :
          (k : InstructionRecordSortKey) (kvs : List (InstructionRecordSortKey × R))
          → last_written k kvs (get k (empty_buffer {R = R}).instruction_records)
            ≡ last_written k kvs none
      empty_get k kvs = unfold empty_buffer get in refl
