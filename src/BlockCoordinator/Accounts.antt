-- ===== src/BlockCoordinator/Accounts.antt =====
-- The account gate and the discarded slots of crates/block-coordinator/src/state.rs.
use shipstern.Base.{
  ℕ, zero, suc, ◌+◌, ◌-◌, ◌<◌, ◌^◌, ◌≡◌, refl, ap, ◌∙◌, true, false, Option, none, some, List, [],
  ◌∷◌, Option-cases, inl, inr, arith, inc64, inc64_lem, ltb, lt→ltb, unwrap_or,
}
use shipstern.Base.Maps.{
  Set, nat_ord, get-retain, get, insert, retain, contains, modify, get-insert, get-insert_self,
  get-remove_self,
}
use shipstern.BlockCoordinator.Types.{
  Slot, confirmed, DiscardReason, InstructionRecordSortKey, AccountRecordSortKey, ParseStatsKind,
  instruction_filtered,
}
use shipstern.BlockCoordinator.Buffer.{
  SlotRecordBuffer, empty_buffer, mark_instruction_commitment_reached,
  mark_account_commitment_reached, set_expected_account_count, account_gate_reached,
  is_account_gate_frozen,
}
use shipstern.BlockCoordinator.State.{
  CoordinatorState, slot_confirmed, slot_discarded, account_event_seen, instruction_record_parsed,
  account_record_parsed, transaction_parsed, parse_stats, CoordinatorEvent, apply, apply_all,
  late_record_drop, is_already_flushed, with_buffer, freeze_account_gate, see_account_event,
  account_gate_closed, account_gate_is_frozen, discard_slot, prune_discarded_slots,
  last_flushed_slot, take_instruction, take_account, validate_instruction_slot,
  validate_account_slot, discarded_slot_retention_behind_flush,
}
use shipstern.BlockCoordinator.Cases.{Withstands, apply_keeps}
use shipstern.BlockCoordinator.Valid.{IsValid, Anywhere, Orderly-Anywhere}

-- The slot is less than 512 behind the last flushed slot, if there is one.
abbrev pub InWindow : Option Slot → Slot → Type 0
InWindow none slot = Unit
InWindow (some last) slot = last - discarded_slot_retention_behind_flush < slot

kept-contains :
    (last : Option Slot) (slot : Slot) (m : Set Slot)
    → InWindow last slot
    → contains slot m ≡ true
    → contains slot (elim last [
      | none ↦ m
      | some l ↦ retain (λ s _. ltb (l - discarded_slot_retention_behind_flush) s) m
    ])
      ≡ true
kept-contains none slot m h c = c
kept-contains (some l) slot m h c = elim (Option-cases (get slot m)) [
  | inl e ↦ ground arith
  | inr (u, e) ↦ rw (get-retain _ slot u m e (lt→ltb _ _ h))
]

insert-contains :
    (s slot : Slot) (m : Set Slot) → contains slot m ≡ true → contains slot (insert s tt m) ≡ true
insert-contains s slot m h = ground (arith, get-insert s slot tt m)

module _ {ℓ} {R : Type ℓ} where
  -- The expected account count of a slot, once its gate is frozen.
  unfoldable pub expected_accounts : CoordinatorState R → Slot → Option ℕ
  expected_accounts st slot = elim (get slot st.buffer) [
    | none ↦ none
    | some b ↦ b.expected_account_count
  ]

  unfoldable pub seen_times : ℕ → Slot → CoordinatorState R → CoordinatorState R
  seen_times zero slot st = st
  seen_times (suc n) slot st = seen_times n slot (apply (account_event_seen slot) st)

  count_of : CoordinatorState R → Slot → ℕ
  count_of st slot = unwrap_or (get slot st.account_event_counts) 0

  -- A slot that still counts: neither flushed nor discarded, its gate not frozen.
  pub record Counting (st : CoordinatorState R) (slot : Slot) : Type 0 where
    pub open_mode : st.account_commit_at ≡ confirmed
    pub not_flushed : is_already_flushed st slot ≡ false
    pub not_discarded : contains slot st.discarded_slots ≡ false
    pub not_frozen : expected_accounts st slot ≡ none

  gate_open :
      (st : CoordinatorState R) (slot : Slot)
      → expected_accounts st slot ≡ none
      → account_gate_closed st slot ≡ false
  unfolding expected_accounts account_gate_closed account_gate_reached account_gate_is_frozen
      is_account_gate_frozen
  gate_open st slot h = ground arith

  see-counts :
      (st : CoordinatorState R) (slot : Slot)
      → Counting st slot
      → see_account_event slot st
        ≡ record st { account_event_counts = modify slot 0 inc64 st.account_event_counts }
  unfolding see_account_event
  see-counts st slot c = rw (c.not_flushed, c.not_discarded, gate_open st slot c.not_frozen) refl

  get-with_buffer :
      (slot : Slot) (f : SlotRecordBuffer R → SlotRecordBuffer R) (st : CoordinatorState R)
      → get slot (with_buffer slot f st).buffer
        ≡ some (f (unwrap_or (get slot st.buffer) empty_buffer))
  unfolding with_buffer
  get-with_buffer slot f st = get-insert_self slot _ st.buffer

  expected-freeze :
      (slot : Slot) (b : SlotRecordBuffer R) (st : CoordinatorState R)
      → get slot st.buffer ≡ some b
      → b.expected_account_count ≡ none
      → expected_accounts (freeze_account_gate slot st) slot
        ≡ some (unwrap_or (get slot st.account_event_counts) 0)
  unfolding freeze_account_gate set_expected_account_count mark_account_commitment_reached
      expected_accounts with_buffer
  expected-freeze slot b st e h = rw (get-insert_self, expected_accounts, e) (rw h)

  expected_none :
      (st : CoordinatorState R) (slot : Slot)
      → expected_accounts st slot ≡ none
      → (mark_instruction_commitment_reached
          (unwrap_or (get slot st.buffer) empty_buffer)).expected_account_count
        ≡ none
  unfolding expected_accounts empty_buffer mark_instruction_commitment_reached
  expected_none st slot h = ground arith

  freeze-count :
      (st : CoordinatorState R) (slot : Slot)
      → Counting st slot
      → expected_accounts (apply (slot_confirmed slot) st) slot ≡ some (count_of st slot)
  unfolding apply count_of with_buffer freeze_account_gate expected_accounts
  freeze-count st slot c =
      rw (c.not_flushed, c.open_mode)
        (expected-freeze slot _ (with_buffer slot mark_instruction_commitment_reached st)
          (get-with_buffer slot mark_instruction_commitment_reached st)
          (expected_none st slot c.not_frozen))

  see-Counting :
      (st : CoordinatorState R) (slot : Slot)
      → Counting st slot
      → Counting (apply (account_event_seen slot) st) slot
  unfolding apply is_already_flushed expected_accounts
  see-Counting st slot c = rw (see-counts st slot c) (record {
    open_mode = c.open_mode;
    not_flushed = c.not_flushed;
    not_discarded = c.not_discarded;
    not_frozen = c.not_frozen;
  })

  see-count_of :
      (st : CoordinatorState R) (slot : Slot)
      → Counting st slot
      → count_of (apply (account_event_seen slot) st) slot ≡ inc64 (count_of st slot)
  unfolding apply count_of
  see-count_of st slot c = rw (see-counts st slot c) (simp get-insert_self)

  -- With n account events seen for a slot that still counts, its confirmation freezes the expected
  -- account count at n more than was counted before, as long as that fits a u64. It holds in the
  -- mode that commits accounts at confirmation.
  pub frozen_count :
      (n : ℕ) (st : CoordinatorState R) (slot : Slot)
      → Counting st slot
      → unwrap_or (get slot st.account_event_counts) 0 + n < 2 ^ 64
      → expected_accounts (apply (slot_confirmed slot) (seen_times n slot st)) slot
        ≡ some (unwrap_or (get slot st.account_event_counts) 0 + n)
  unfolding seen_times count_of
  frozen_count zero st slot c h = freeze-count st slot c ∙ ap some (omega arith)
  frozen_count (suc n) st slot c h =
      let grown : unwrap_or (get slot (apply (account_event_seen slot) st).account_event_counts) 0
          ≡ unwrap_or (get slot st.account_event_counts) 0 + 1 =
        see-count_of st slot c
        ∙ inc64_lem (unwrap_or (get slot st.account_event_counts) 0) (omega arith) in
      frozen_count n (apply (account_event_seen slot) st) slot (see-Counting st slot c)
        (omega arith)
      ∙ ap some (omega arith)

  -- What a known discarded slot does with each kind of event that would add to it.
  pub record Ignores (st : CoordinatorState R) (slot : Slot) : Type ℓ where
    pub account_events : apply (account_event_seen slot) st ≡ st
    pub transactions : apply (transaction_parsed slot) st ≡ st
    pub instructions :
        (key : InstructionRecordSortKey) (r : R)
        → apply (instruction_record_parsed slot key r) st ≡ st
    pub accounts :
        (key : AccountRecordSortKey) (r : R) → apply (account_record_parsed slot key r) st ≡ st
    pub stats : (kind : ParseStatsKind) → apply (parse_stats slot kind) st ≡ st

  Ignores-discarded :
      (st : CoordinatorState R) (slot : Slot)
      → contains slot st.discarded_slots ≡ true
      → Ignores st slot
  unfolding apply see_account_event take_instruction take_account validate_instruction_slot
      validate_account_slot
  Ignores-discarded st slot h = record {
    account_events = ground arith;
    transactions = rw h;
    instructions = λ key r. rw h;
    accounts = λ key r. rw h;
    stats = stats;
  }
    where
      stats : (kind : ParseStatsKind) → apply (parse_stats slot kind) st ≡ st
      stats instruction_filtered = rw h
      stats _ = rw h

  -- The mark of the slot survives the pruning that comes with a discard.
  abbrev pub Retained : CoordinatorState R → Slot → Type 0
  Retained st slot = InWindow (last_flushed_slot st) slot

  -- The slot is marked as discarded, and not yet out of the retention window.
  abbrev Marked : Slot → CoordinatorState R → Type 0
  Marked slot st = (contains slot st.discarded_slots ≡ true) × Retained st slot

  Marked-Withstands : (slot : Slot) → Withstands Anywhere (Marked slot)
  unfolding with_buffer late_record_drop discard_slot prune_discarded_slots last_flushed_slot
  Marked-Withstands slot = record {
    contained = λ s st h. tt;
    buffered = λ s f st h at p. p;
    counted = λ s st p. p;
    uncounted = λ s st p. p;
    late_record = λ st p. p;
    late_event = λ st p. p;
    discarded = λ s st p. (
      kept-contains (last_flushed_slot st) slot (insert s tt st.discarded_slots) p.1
          (insert-contains s slot st.discarded_slots p.0),
      p.1,
    );
  }

  apply_all-Marked :
      (es : List (CoordinatorEvent R)) (st : CoordinatorState R) (slot : Slot)
      → Marked slot st
      → Marked slot (apply_all es st)
  unfolding apply_all
  apply_all-Marked [] st slot p = p
  apply_all-Marked (e ∷ es) st slot p =
      apply_all-Marked es (apply e st) slot
        (apply_keeps Anywhere (Marked slot) (Marked-Withstands slot) e st (Orderly-Anywhere e st) p)

  -- A discard of a slot within the retention window drops its buffer and its account count. Whatever
  -- events follow, until the next flush, the records of the slot, its statistics, its parsed transactions
  -- and its account events change nothing at all.
  pub discard_is_final :
      (st : CoordinatorState R) (slot : Slot) (reason : DiscardReason)
      → IsValid st
      → Retained st slot
      → (get slot (apply (slot_discarded slot reason) st).buffer ≡ none)
        × (get slot (apply (slot_discarded slot reason) st).account_event_counts ≡ none)
        × ((es : List (CoordinatorEvent R))
            → Ignores (apply_all es (apply (slot_discarded slot reason) st)) slot)
  unfolding apply discard_slot prune_discarded_slots last_flushed_slot
  discard_is_final st slot reason v h = (
    get-remove_self slot st.buffer v.buffer_sorted,
    get-remove_self slot st.account_event_counts v.counts_sorted,
    λ es.
        Ignores-discarded _ slot
          (apply_all-Marked es (discard_slot slot st) slot (
            kept-contains (last_flushed_slot st) slot (insert slot tt st.discarded_slots) h
                (rw (get-insert_self slot tt st.discarded_slots)),
            h,
          )).0,
  )
