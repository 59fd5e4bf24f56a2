-- ===== src/BlockCoordinator/Frontier.antt =====
-- The two flush frontiers of `CoordinatorState` (crates/block-coordinator/src/state.rs), and
-- the events that are `Placed` with respect to them.
use shipstern.Base.{
  ◌≡◌, ◌∙◌, Bool, true, false, Option, none, some, List, [], ◌∷◌, ◌⊎◌, inl, inr, arith, unwrap_or,
}
use shipstern.Base.Maps.{Map, nat_ord, get, insert, contains}
use shipstern.Base.Maps.Entries.{AllEntries-remove, AllEntries-retain, AllEntries-modify}
use shipstern.BlockCoordinator.Types.{Slot, AccountCommitAt, ok}
use shipstern.BlockCoordinator.Buffer.{SlotRecordBuffer, empty_buffer}
use shipstern.BlockCoordinator.State.{
  CoordinatorState, CoordinatorEvent, new, with_buffer, prune_discarded_slots, last_flushed_slot,
  discard_slot, apply, late_record_drop, at_or_behind,
}
use shipstern.BlockCoordinator.Cases.{Orderly, Withstands, apply_keeps}
use shipstern.BlockCoordinator.Drain.{cleanup_fully_drained, after_drain}
use shipstern.BlockCoordinator.Drain.Order.{AheadOf, Ahead}

module _ {ℓ} {R : Type ℓ} where
  abbrev pub ix_drained : SlotRecordBuffer R → Bool
  ix_drained b = b.instructions_drained

  abbrev pub acct_drained : SlotRecordBuffer R → Bool
  acct_drained b = b.accounts_drained

  pub record Frontiers (st : CoordinatorState R) : Type 0 where
    pub instructions : Ahead ix_drained st.last_instruction_flushed_slot st.buffer
    pub accounts : Ahead acct_drained st.last_account_flushed_slot st.buffer

  -- The slot is buffered already, or lies ahead of both frontiers.
  abbrev pub Placed : Slot → CoordinatorState R → Type 0
  Placed slot st =
      (contains slot st.buffer ≡ true)
      ⊎ ((at_or_behind slot st.last_instruction_flushed_slot ≡ false)
          × (at_or_behind slot st.last_account_flushed_slot ≡ false))

  pub new-Frontiers : (c : AccountCommitAt) → Frontiers (new c)
  unfolding new
  new-Frontiers c = record { instructions = tt; accounts = tt }

  AheadOf-new :
      (drained : SlotRecordBuffer R → Bool) (last : Option Slot) (slot : Slot)
      (b : SlotRecordBuffer R)
      → at_or_behind slot last ≡ false
      → AheadOf drained last slot b
  AheadOf-new drained none slot b h = tt
  AheadOf-new drained (some l) slot b h = inr (ground arith)

  AheadOf-same :
      (drained : SlotRecordBuffer R → Bool) (last : Option Slot) (slot : Slot)
      (b c : SlotRecordBuffer R)
      → drained c ≡ drained b
      → AheadOf drained last slot b
      → AheadOf drained last slot c
  AheadOf-same drained none slot b c e h = tt
  AheadOf-same drained (some l) slot b c e (inl h) = inl (e ∙ h)
  AheadOf-same drained (some l) slot b c e (inr h) = inr h

  -- One change of one placed buffer.
  Ahead-modify :
      (drained : SlotRecordBuffer R → Bool) (last : Option Slot) (slot : Slot)
      (f : SlotRecordBuffer R → SlotRecordBuffer R) (m : Map Slot (SlotRecordBuffer R))
      → ((b : SlotRecordBuffer R) → drained (f b) ≡ drained b)
      → (contains slot m ≡ true) ⊎ (at_or_behind slot last ≡ false)
      → Ahead drained last m
      → Ahead drained last (insert slot (f (unwrap_or (get slot m) empty_buffer)) m)
  Ahead-modify drained last slot f m same at a =
      AllEntries-modify (AheadOf drained last) slot empty_buffer f m (absent at)
        (λ b h. AheadOf-same drained last slot b (f b) (same b) h) a
    where
      absent :
          (contains slot m ≡ true) ⊎ (at_or_behind slot last ≡ false)
          → get slot m ≡ none
          → AheadOf drained last slot (f empty_buffer)
      absent (inl c) e = absurd (not_contained c e)
        where
          not_contained : contains slot m ≡ true → get slot m ≡ none → ⊥
          not_contained c e = ground arith
      absent (inr n) e = AheadOf-new drained last slot (f empty_buffer) n

  discard-Frontiers :
      (slot : Slot) (st : CoordinatorState R) → Frontiers st → Frontiers (discard_slot slot st)
  unfolding discard_slot prune_discarded_slots last_flushed_slot
  discard-Frontiers slot st v = record {
    instructions = AllEntries-remove (AheadOf ix_drained _) slot st.buffer v.instructions;
    accounts = AllEntries-remove (AheadOf acct_drained _) slot st.buffer v.accounts;
  }

  Frontiers-Withstands : Withstands Placed Frontiers
  unfolding with_buffer late_record_drop
  Frontiers-Withstands = record {
    contained = λ slot st h. inl h;
    buffered = λ slot f st h at v. record {
      instructions =
          Ahead-modify ix_drained st.last_instruction_flushed_slot slot f st.buffer
            h.instructions_kept (ahead_of_instructions slot st at) v.instructions;
      accounts =
          Ahead-modify acct_drained st.last_account_flushed_slot slot f st.buffer h.accounts_kept
            (ahead_of_accounts slot st at) v.accounts;
    };
    counted = λ slot st v. record { instructions = v.instructions; accounts = v.accounts };
    uncounted = λ slot st v. record { instructions = v.instructions; accounts = v.accounts };
    late_record = λ st v. record { instructions = v.instructions; accounts = v.accounts };
    late_event = λ st v. record { instructions = v.instructions; accounts = v.accounts };
    discarded = discard-Frontiers;
  }
    where
      ahead_of_instructions :
          (slot : Slot) (st : CoordinatorState R)
          → Placed slot st
          → (contains slot st.buffer ≡ true)
            ⊎ (at_or_behind slot st.last_instruction_flushed_slot ≡ false)
      ahead_of_instructions slot st (inl h) = inl h
      ahead_of_instructions slot st (inr h) = inr h.0

      ahead_of_accounts :
          (slot : Slot) (st : CoordinatorState R)
          → Placed slot st
          → (contains slot st.buffer ≡ true)
            ⊎ (at_or_behind slot st.last_account_flushed_slot ≡ false)
      ahead_of_accounts slot st (inl h) = inl h
      ahead_of_accounts slot st (inr h) = inr h.1

  -- An event keeps every undrained buffer ahead of both frontiers when its slot is buffered or ahead
  -- of both; a freeze, confirmation or finalization also when its slot is behind both, a finalization
  -- also when accounts are committed at confirmation, and a record or a statistic also when its slot
  -- is behind the frontier of its kind.
  pub apply-Frontiers :
      (e : CoordinatorEvent R) (st : CoordinatorState R)
      → Orderly Placed e st
      → Frontiers st
      → Frontiers (apply e st)
  apply-Frontiers = apply_keeps Placed Frontiers Frontiers-Withstands

  cleanup-Frontiers :
      (st : CoordinatorState R) → Frontiers st → Frontiers (cleanup_fully_drained st)
  unfolding cleanup_fully_drained prune_discarded_slots last_flushed_slot
  cleanup-Frontiers st v = record {
    instructions = AllEntries-retain (AheadOf ix_drained _) _ st.buffer v.instructions;
    accounts = AllEntries-retain (AheadOf acct_drained _) _ st.buffer v.accounts;
  }

  pub after_drain-Frontiers {κ} :
      {A : Type κ} (outs : List A) (st : CoordinatorState R)
      → Frontiers st
      → Frontiers (after_drain (ok outs, st)).1
  after_drain-Frontiers [] st v = v
  after_drain-Frontiers (a ∷ as') st v = cleanup-Frontiers st v
