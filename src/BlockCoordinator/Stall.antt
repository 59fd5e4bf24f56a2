-- ===== src/BlockCoordinator/Stall.antt =====
-- Account records behind the instruction frontier of crates/block-coordinator/src/state.rs, where
-- `validate_account_slot` looks at the account frontier only.
use shipstern.Base.{◌≡◌, false, some, [], ◌∷◌}
use shipstern.Base.Maps.{Map, nat_ord, get, contains, Above, get-Above, insert_front, ltb_irrefl}
use shipstern.BlockCoordinator.Types.{Slot, AccountRecordSortKey, ok}
use shipstern.BlockCoordinator.Buffer.{
  empty_buffer, insert_account_record, increment_account_processed_count, instruction_gate_reached,
}
use shipstern.BlockCoordinator.State.{
  CoordinatorState, account_record_parsed, apply, take_account, validate_account_slot, with_buffer,
  at_or_behind, accounts_already_drained,
}
use shipstern.BlockCoordinator.Drain.{
  stop, drain_instruction_flushable, visit_all, visit_instruction, visit_instruction_buffer,
}

get-head {ℓ} :
    {V : Type ℓ} (slot : Slot) (v : V) (m : Map Slot V) → get slot ((slot, v) ∷ m) ≡ some v
unfolding get
get-head slot v m = rw (ltb_irrefl slot)

module _ {ℓ} {R : Type ℓ} (st : CoordinatorState R) (slot : Slot) where
  not_drained : Above slot st.buffer → accounts_already_drained st slot ≡ false
  unfolding accounts_already_drained
  not_drained oldest = rw (get-Above slot st.buffer oldest, accounts_already_drained)

  taken :
      (key : AccountRecordSortKey) (r : R)
      → contains slot st.discarded_slots ≡ false
      → at_or_behind slot st.last_account_flushed_slot ≡ false
      → Above slot st.buffer
      → apply (account_record_parsed slot key r) st ≡ record st {
        buffer =
            (slot, increment_account_processed_count (insert_account_record key r empty_buffer))
            ∷ st.buffer;
      }
  unfolding apply take_account validate_account_slot with_buffer
  taken key r live ahead oldest =
      rw (live, ahead, not_drained oldest)
        (rw (get-Above slot st.buffer oldest) (rw (insert_front slot _ st.buffer oldest)))

  first_stops :
      (key : AccountRecordSortKey) (r : R)
      → visit_instruction
          (record st {
            buffer =
                (slot, increment_account_processed_count (insert_account_record key r empty_buffer))
                ∷ st.buffer;
          })
          slot
        ≡ stop
  unfolding visit_instruction visit_instruction_buffer instruction_gate_reached
      increment_account_processed_count insert_account_record empty_buffer
  first_stops key r = rw (get-head slot _ st.buffer, visit_instruction)

  -- A slot that is unknown, not discarded, older than all that is buffered and ahead of the account
  -- frontier takes an account record, wherever the instruction frontier is. After that the
  -- instruction drain returns nothing and changes nothing, however many later slots are ready.
  pub late_account_record_blocks :
      (key : AccountRecordSortKey) (r : R)
      → contains slot st.discarded_slots ≡ false
      → at_or_behind slot st.last_account_flushed_slot ≡ false
      → Above slot st.buffer
      → drain_instruction_flushable (apply (account_record_parsed slot key r) st)
        ≡ (ok [], apply (account_record_parsed slot key r) st)
  unfolding drain_instruction_flushable visit_all
  late_account_record_blocks key r live ahead oldest =
      rw (taken key r live ahead oldest) (rw (first_stops key r, visit_all))
