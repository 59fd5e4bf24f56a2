-- ===== src/BlockCoordinator/Flush.antt =====
-- The drains of crates/block-coordinator/src/state.rs as the coordinator's loop sees them: what they
-- return and the state that they leave.
use shipstern.Base.{
  Bool, ◌≡◌, refl, ◌∙◌, Option, none, some, List, [], ◌∷◌, inl, inr, arith, map, IsAscending,
}
use shipstern.Base.Maps.{Set}
use shipstern.BlockCoordinator.Types.{Slot, InstructionSlot, AccountSlot, ok}
use shipstern.BlockCoordinator.Buffer.{SlotRecordBuffer}
use shipstern.BlockCoordinator.State.{CoordinatorState}
use shipstern.BlockCoordinator.Valid.{IsValid, RecordsSorted, after_drain-IsValid}
use shipstern.BlockCoordinator.Frontier.{Frontiers, ix_drained, acct_drained, after_drain-Frontiers}
use shipstern.BlockCoordinator.Drain.{
  after_drain, cleanup_fully_drained, drain_instruction_flushable, drain_account_flushable,
}
use shipstern.BlockCoordinator.Drain.Sweep.{Swept}
use shipstern.BlockCoordinator.Drain.Passes.{
  due, account_due, after_instructions, after_accounts, sweep_instructions, sweep_accounts,
  at_instructions, at_accounts, drain-sweep_instructions, drain-sweep_accounts,
}
use shipstern.BlockCoordinator.Drain.Order.{
  AheadOf, Ahead, AscFromLast, frontier, sweep-IsSorted, sweep-AllEntries, sweep-frontier,
  sweep-order, sweep-IsAscending,
}

module _ {ℓ} {R : Type ℓ} where
  abbrev pub ix_slots : List (InstructionSlot R) → List Slot
  ix_slots = map (λ o. o.slot)

  abbrev pub acct_slots : List (AccountSlot R) → List Slot
  acct_slots = map (λ o. o.slot)

  due-slot :
      (discarded : Set Slot) (last : Option Slot) (slot : Slot) (b : SlotRecordBuffer R)
      (o : InstructionSlot R)
      → due discarded last slot b ≡ some o
      → o.slot ≡ slot
  unfolding due
  due-slot discarded last slot b o e = ground arith

  account_due-slot :
      (last : Option Slot) (slot : Slot) (b : SlotRecordBuffer R) (o : AccountSlot R)
      → account_due last slot b ≡ some o
      → o.slot ≡ slot
  unfolding account_due
  account_due-slot last slot b o e = ground arith

  after_drain-ok :
      {A : Type ℓ} (outs : List A) (st : CoordinatorState R)
      → after_drain (ok outs, st) ≡ (ok outs, (after_drain (ok outs, st)).1)
  after_drain-ok [] st = refl
  after_drain-ok (a ∷ as') st = refl

  after_drain-instructions :
      {A : Type ℓ} (outs : List A) (st : CoordinatorState R)
      → (after_drain (ok outs, st)).1.last_instruction_flushed_slot
        ≡ st.last_instruction_flushed_slot
  unfolding cleanup_fully_drained
  after_drain-instructions [] st = refl
  after_drain-instructions (a ∷ as') st = refl

  after_drain-accounts :
      {A : Type ℓ} (outs : List A) (st : CoordinatorState R)
      → (after_drain (ok outs, st)).1.last_account_flushed_slot ≡ st.last_account_flushed_slot
  unfolding cleanup_fully_drained
  after_drain-accounts [] st = refl
  after_drain-accounts (a ∷ as') st = refl

  -- A drain that returned `outs`, above the frontier that it found and in order, moved the frontier
  -- to the last of them, and left a valid state.
  pub record InstructionsFlushed (st : CoordinatorState R) (outs : List (InstructionSlot R))
      (st' : CoordinatorState R) : Type ℓ where
    pub returned : drain_instruction_flushable st ≡ (ok outs, st')
    pub ascending : AscFromLast st.last_instruction_flushed_slot (ix_slots outs)
    pub moved :
        st'.last_instruction_flushed_slot
        ≡ frontier st.last_instruction_flushed_slot (ix_slots outs)
    pub kept : st'.last_account_flushed_slot ≡ st.last_account_flushed_slot
    pub valid : IsValid st'
    pub frontiers : Frontiers st'

  pub record AccountsFlushed (st : CoordinatorState R) (outs : List (AccountSlot R))
      (st' : CoordinatorState R) : Type ℓ where
    pub returned : drain_account_flushable st ≡ (ok outs, st')
    pub ascending : AscFromLast st.last_account_flushed_slot (acct_slots outs)
    pub moved :
        st'.last_account_flushed_slot ≡ frontier st.last_account_flushed_slot (acct_slots outs)
    pub kept : st'.last_instruction_flushed_slot ≡ st.last_instruction_flushed_slot
    pub valid : IsValid st'
    pub frontiers : Frontiers st'

  AheadOf-settled :
      (drained : SlotRecordBuffer R → Bool) (last : Option Slot)
      (f : SlotRecordBuffer R → SlotRecordBuffer R)
      → ((b : SlotRecordBuffer R) → drained (f b) ≡ drained b)
      → (slot : Slot) (b : SlotRecordBuffer R) → AheadOf drained last slot b
      → AheadOf drained last slot (f b)
  AheadOf-settled drained none f same slot b h = tt
  AheadOf-settled drained (some l) f same slot b (inl h) = inl (same b ∙ h)
  AheadOf-settled drained (some l) f same slot b (inr h) = inr h

  module _ (st : CoordinatorState R) (v : IsValid st) where
    ix_swept : Swept (SlotRecordBuffer R) (InstructionSlot R)
    unfolding sweep_instructions
    ix_swept = sweep_instructions st.discarded_slots st.last_instruction_flushed_slot st.buffer

    ix_after : CoordinatorState R
    unfolding ix_swept
    ix_after = at_instructions st ix_swept.1 ix_swept.2

    ix-IsValid : IsValid ix_after
    unfolding ix_after
    ix-IsValid = record {
      buffer_sorted =
          sweep-IsSorted ix_drained (due st.discarded_slots) after_instructions
            st.last_instruction_flushed_slot st.buffer v.buffer_sorted;
      discarded_sorted = v.discarded_sorted;
      counts_sorted = v.counts_sorted;
      records_sorted =
          sweep-AllEntries ix_drained (due st.discarded_slots) after_instructions RecordsSorted
            (λ slot b h. (tt, h.1)) st.last_instruction_flushed_slot st.buffer v.records_sorted;
    }

    ix_order :
        Frontiers st
        → AscFromLast st.last_instruction_flushed_slot (ix_slots ix_swept.0)
          × Ahead ix_drained ix_swept.2 ix_swept.1
    unfolding ix_swept
    ix_order f =
        sweep-order ix_drained (due st.discarded_slots) after_instructions (λ o. o.slot)
          (due-slot st.discarded_slots) (λ b. refl) st.last_instruction_flushed_slot st.buffer
          v.buffer_sorted f.instructions

    ix-Frontiers : Frontiers st → Frontiers ix_after
    unfolding ix_after
    ix-Frontiers f = record {
      instructions = (ix_order f).1;
      accounts =
          sweep-AllEntries ix_drained (due st.discarded_slots) after_instructions
            (AheadOf acct_drained st.last_account_flushed_slot)
            (AheadOf-settled acct_drained st.last_account_flushed_slot after_instructions
              (λ b. refl))
            st.last_instruction_flushed_slot st.buffer f.accounts;
    }

    ix_moved : ix_swept.2 ≡ frontier st.last_instruction_flushed_slot (ix_slots ix_swept.0)
    unfolding ix_swept
    ix_moved =
        sweep-frontier ix_drained (due st.discarded_slots) after_instructions (λ o. o.slot)
          (due-slot st.discarded_slots) (λ b. refl) st.last_instruction_flushed_slot st.buffer

    acct_swept : Swept (SlotRecordBuffer R) (AccountSlot R)
    unfolding sweep_accounts
    acct_swept = sweep_accounts st.last_account_flushed_slot st.buffer

    acct_after : CoordinatorState R
    unfolding acct_swept
    acct_after = at_accounts st acct_swept.1 acct_swept.2

    acct-IsValid : IsValid acct_after
    unfolding acct_after
    acct-IsValid = record {
      buffer_sorted =
          sweep-IsSorted acct_drained account_due after_accounts st.last_account_flushed_slot
            st.buffer v.buffer_sorted;
      discarded_sorted = v.discarded_sorted;
      counts_sorted = v.counts_sorted;
      records_sorted =
          sweep-AllEntries acct_drained account_due after_accounts RecordsSorted
            (λ slot b h. (h.0, tt)) st.last_account_flushed_slot st.buffer v.records_sorted;
    }

    acct_order :
        Frontiers st
        → AscFromLast st.last_account_flushed_slot (acct_slots acct_swept.0)
          × Ahead acct_drained acct_swept.2 acct_swept.1
    unfolding acct_swept
    acct_order f =
        sweep-order acct_drained account_due after_accounts (λ o. o.slot) account_due-slot
          (λ b. refl) st.last_account_flushed_slot st.buffer v.buffer_sorted f.accounts

    acct-Frontiers : Frontiers st → Frontiers acct_after
    unfolding acct_after
    acct-Frontiers f = record {
      accounts = (acct_order f).1;
      instructions =
          sweep-AllEntries acct_drained account_due after_accounts
            (AheadOf ix_drained st.last_instruction_flushed_slot)
            (AheadOf-settled ix_drained st.last_instruction_flushed_slot after_accounts (λ b. refl))
            st.last_account_flushed_slot st.buffer f.instructions;
    }

    acct_moved : acct_swept.2 ≡ frontier st.last_account_flushed_slot (acct_slots acct_swept.0)
    unfolding acct_swept
    acct_moved =
        sweep-frontier acct_drained account_due after_accounts (λ o. o.slot) account_due-slot
          (λ b. refl) st.last_account_flushed_slot st.buffer

    -- From a valid state with both frontiers in place, the instruction drain returns slots above its
    -- frontier in strictly ascending order, moves the frontier to the last of them, leaves the
    -- account frontier where it was, and leaves a valid state with both frontiers in place.
    pub flush_instructions :
        Frontiers st
        → (outs : List (InstructionSlot R)) × (st' : CoordinatorState R) × InstructionsFlushed st
            outs st'
    unfolding ix_after
    flush_instructions f = (
      ix_swept.0,
      (after_drain (ok ix_swept.0, ix_after)).1,
      record {
        returned = drain-sweep_instructions st v.buffer_sorted ∙ after_drain-ok ix_swept.0 ix_after;
        ascending = (ix_order f).0;
        moved = after_drain-instructions ix_swept.0 ix_after ∙ ix_moved;
        kept = after_drain-accounts ix_swept.0 ix_after;
        valid = after_drain-IsValid ix_swept.0 ix_after ix-IsValid;
        frontiers = after_drain-Frontiers ix_swept.0 ix_after (ix-Frontiers f);
      },
    )

    -- From a valid state with both frontiers in place, the account drain returns slots above its
    -- frontier in strictly ascending order, moves the frontier to the last of them, leaves the
    -- instruction frontier where it was, and leaves a valid state with both frontiers in place.
    pub flush_accounts :
        Frontiers st
        → (outs : List (AccountSlot R)) × (st' : CoordinatorState R) × AccountsFlushed st outs st'
    unfolding acct_after
    flush_accounts f = (
      acct_swept.0,
      (after_drain (ok acct_swept.0, acct_after)).1,
      record {
        returned = drain-sweep_accounts st v.buffer_sorted ∙ after_drain-ok acct_swept.0 acct_after;
        ascending = (acct_order f).0;
        moved = after_drain-accounts acct_swept.0 acct_after ∙ acct_moved;
        kept = after_drain-instructions acct_swept.0 acct_after;
        valid = after_drain-IsValid acct_swept.0 acct_after acct-IsValid;
        frontiers = after_drain-Frontiers acct_swept.0 acct_after (acct-Frontiers f);
      },
    )

    -- Whatever the frontiers, the instruction drain of a valid state returns: no error, no missing
    -- buffer. Its slots are strictly ascending, and the state stays valid.
    pub instructions_return :
        (outs : List (InstructionSlot R)) × (st' : CoordinatorState R)
        × (drain_instruction_flushable st ≡ (ok outs, st'))
        × IsAscending (ix_slots outs)
        × IsValid st'
    unfolding ix_after ix_swept
    instructions_return = (
      ix_swept.0,
      (after_drain (ok ix_swept.0, ix_after)).1,
      drain-sweep_instructions st v.buffer_sorted ∙ after_drain-ok ix_swept.0 ix_after,
      sweep-IsAscending ix_drained (due st.discarded_slots) after_instructions (λ o. o.slot)
          (due-slot st.discarded_slots) (λ b. refl) st.last_instruction_flushed_slot st.buffer
          v.buffer_sorted,
      after_drain-IsValid ix_swept.0 ix_after ix-IsValid,
    )

    -- Whatever the frontiers, the account drain of a valid state returns: no error, no missing
    -- buffer. Its slots are strictly ascending, and the state stays valid.
    pub accounts_return :
        (outs : List (AccountSlot R)) × (st' : CoordinatorState R) × (drain_account_flushable st
          ≡ (ok outs, st'))
        × IsAscending (acct_slots outs)
        × IsValid st'
    unfolding acct_after acct_swept
    accounts_return = (
      acct_swept.0,
      (after_drain (ok acct_swept.0, acct_after)).1,
      drain-sweep_accounts st v.buffer_sorted ∙ after_drain-ok acct_swept.0 acct_after,
      sweep-IsAscending acct_drained account_due after_accounts (λ o. o.slot) account_due-slot
          (λ b. refl) st.last_account_flushed_slot st.buffer v.buffer_sorted,
      after_drain-IsValid acct_swept.0 acct_after acct-IsValid,
    )
