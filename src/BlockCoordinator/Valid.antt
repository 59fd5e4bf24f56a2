-- ===== src/BlockCoordinator/Valid.antt =====
-- The representation invariant of `CoordinatorState` (crates/block-coordinator/src/state.rs):
-- every map is in key order.
use shipstern.Base.{not, ◌≡◌, refl, Bool, Option, none, some, List, [], ◌∷◌, inr}
use shipstern.Base.Maps.{
  Map, nat_ord, insert, remove, retain, IsSorted, insert-IsSorted, remove-IsSorted, retain-IsSorted,
}
use shipstern.Base.Maps.Entries.{
  AllEntries, AllEntries-remove, AllEntries-retain, AllEntries-modify,
}
use shipstern.BlockCoordinator.Types.{ok, Slot, AccountCommitAt}
use shipstern.BlockCoordinator.Keys.{instruction_key_ord, account_key_ord}
use shipstern.BlockCoordinator.Buffer.{SlotRecordBuffer, empty_buffer, is_fully_drained}
use shipstern.BlockCoordinator.State.{
  CoordinatorState, CoordinatorEvent, block_frozen, slot_confirmed, slot_finalized, slot_discarded,
  account_event_seen, instruction_record_parsed, account_record_parsed, transaction_parsed,
  parse_stats, new, with_buffer, prune_discarded_slots, last_flushed_slot, discard_slot, apply,
  late_record_drop,
}
use shipstern.BlockCoordinator.Cases.{Orderly, Withstands, apply_keeps}
use shipstern.BlockCoordinator.Drain.{cleanup_fully_drained, after_drain}

optional_retain-IsSorted {κ} :
    {V : Type κ} (o : Option Slot) (p : Slot → Slot → V → Bool) (m : Map Slot V)
    → IsSorted m
    → IsSorted {K = Slot} (elim o [ none ↦ m | some last ↦ retain (p last) m ])
optional_retain-IsSorted none p m s = s
optional_retain-IsSorted (some last) p m s = retain-IsSorted (p last) m s

module _ {ℓ} {R : Type ℓ} where
  -- The records of a slot are in key order.
  abbrev pub RecordsSorted : Slot → SlotRecordBuffer R → Type 0
  RecordsSorted slot b = IsSorted b.instruction_records × IsSorted b.account_records

  pub record IsValid (st : CoordinatorState R) : Type 0 where
    pub buffer_sorted : IsSorted st.buffer
    pub discarded_sorted : IsSorted st.discarded_slots
    pub counts_sorted : IsSorted st.account_event_counts
    pub records_sorted : AllEntries RecordsSorted st.buffer

  pub new-IsValid : (c : AccountCommitAt) → IsValid (new c)
  unfolding new
  new-IsValid c = record {
    buffer_sorted = tt;
    discarded_sorted = tt;
    counts_sorted = tt;
    records_sorted = tt;
  }

  pub prune-IsValid : (st : CoordinatorState R) → IsValid st → IsValid (prune_discarded_slots st)
  unfolding prune_discarded_slots
  prune-IsValid st v = record {
    buffer_sorted = v.buffer_sorted;
    discarded_sorted =
        optional_retain-IsSorted (last_flushed_slot st) _ st.discarded_slots v.discarded_sorted;
    counts_sorted = v.counts_sorted;
    records_sorted = v.records_sorted;
  }

  discard-IsValid :
      (slot : Slot) (st : CoordinatorState R) → IsValid st → IsValid (discard_slot slot st)
  unfolding discard_slot
  discard-IsValid slot st v =
      let w =
        prune-IsValid
          (record st {
            discarded_slots = insert slot tt st.discarded_slots;
            account_event_counts = remove slot st.account_event_counts;
          })
          (record {
            buffer_sorted = v.buffer_sorted;
            discarded_sorted = insert-IsSorted slot tt st.discarded_slots v.discarded_sorted;
            counts_sorted = remove-IsSorted slot st.account_event_counts v.counts_sorted;
            records_sorted = v.records_sorted;
          }) in
      record {
        buffer_sorted = remove-IsSorted slot _ w.buffer_sorted;
        discarded_sorted = w.discarded_sorted;
        counts_sorted = w.counts_sorted;
        records_sorted = AllEntries-remove RecordsSorted slot _ w.records_sorted;
      }

  -- Validity asks nothing of where an event puts records.
  abbrev pub Anywhere : Slot → CoordinatorState R → Type 0
  Anywhere slot st = Unit

  IsValid-Withstands : Withstands Anywhere IsValid
  unfolding with_buffer late_record_drop empty_buffer
  IsValid-Withstands = record {
    contained = λ slot st h. tt;
    buffered = λ slot f st h at v. record {
      buffer_sorted = insert-IsSorted slot _ st.buffer v.buffer_sorted;
      discarded_sorted = v.discarded_sorted;
      counts_sorted = v.counts_sorted;
      records_sorted =
          AllEntries-modify RecordsSorted slot empty_buffer f st.buffer
            (λ _. (h.instructions_in_order empty_buffer tt, h.accounts_in_order empty_buffer tt))
            (λ b s. (h.instructions_in_order b s.0, h.accounts_in_order b s.1)) v.records_sorted;
    };
    counted = λ slot st v. record {
      buffer_sorted = v.buffer_sorted;
      discarded_sorted = v.discarded_sorted;
      counts_sorted = insert-IsSorted slot _ st.account_event_counts v.counts_sorted;
      records_sorted = v.records_sorted;
    };
    uncounted = λ slot st v. record {
      buffer_sorted = v.buffer_sorted;
      discarded_sorted = v.discarded_sorted;
      counts_sorted = remove-IsSorted slot st.account_event_counts v.counts_sorted;
      records_sorted = v.records_sorted;
    };
    late_record = λ st v. record {
      buffer_sorted = v.buffer_sorted;
      discarded_sorted = v.discarded_sorted;
      counts_sorted = v.counts_sorted;
      records_sorted = v.records_sorted;
    };
    late_event = λ st v. record {
      buffer_sorted = v.buffer_sorted;
      discarded_sorted = v.discarded_sorted;
      counts_sorted = v.counts_sorted;
      records_sorted = v.records_sorted;
    };
    discarded = discard-IsValid;
  }

  pub Orderly-Anywhere : (e : CoordinatorEvent R) (st : CoordinatorState R) → Orderly Anywhere e st
  Orderly-Anywhere (block_frozen slot m) st = inr tt
  Orderly-Anywhere (slot_confirmed slot) st = inr tt
  Orderly-Anywhere (slot_finalized slot) st = inr (inr tt)
  Orderly-Anywhere (slot_discarded slot reason) st = tt
  Orderly-Anywhere (account_event_seen slot) st = tt
  Orderly-Anywhere (instruction_record_parsed slot key r) st = inr tt
  Orderly-Anywhere (account_record_parsed slot key r) st = inr tt
  Orderly-Anywhere (transaction_parsed slot) st = inr tt
  Orderly-Anywhere (parse_stats slot kind) st = inr tt

  -- Every event keeps a valid state valid: the buffers, the discarded slots, the account counts and
  -- the records of every buffer stay sorted by their keys, each key once.
  pub apply-IsValid :
      (e : CoordinatorEvent R) (st : CoordinatorState R) → IsValid st → IsValid (apply e st)
  apply-IsValid e st = apply_keeps Anywhere IsValid IsValid-Withstands e st (Orderly-Anywhere e st)

  pub cleanup-IsValid : (st : CoordinatorState R) → IsValid st → IsValid (cleanup_fully_drained st)
  unfolding cleanup_fully_drained prune_discarded_slots
  cleanup-IsValid st v = record {
    buffer_sorted = w.buffer_sorted;
    discarded_sorted = w.discarded_sorted;
    counts_sorted = optional_retain-IsSorted st.last_account_flushed_slot _ _ w.counts_sorted;
    records_sorted = w.records_sorted;
  }
    where
      kept : CoordinatorState R
      kept = record st { buffer = retain (λ _ b. not (is_fully_drained b)) st.buffer }

      pruned : CoordinatorState R
      pruned = prune_discarded_slots kept

      w : IsValid pruned
      w = prune-IsValid kept (record {
        buffer_sorted = retain-IsSorted _ st.buffer v.buffer_sorted;
        discarded_sorted = v.discarded_sorted;
        counts_sorted = v.counts_sorted;
        records_sorted = AllEntries-retain RecordsSorted _ st.buffer v.records_sorted;
      })

  pub after_drain-IsValid {κ} :
      {A : Type κ} (outs : List A) (st : CoordinatorState R)
      → IsValid st
      → IsValid (after_drain (ok outs, st)).1
  after_drain-IsValid [] st v = v
  after_drain-IsValid (a ∷ as') st v = cleanup-IsValid st v

  -- An event moves neither flush frontier.
  abbrev pub FrontiersAt : Option Slot → Option Slot → CoordinatorState R → Type 0
  FrontiersAt ix acct st =
      (st.last_instruction_flushed_slot ≡ ix) × (st.last_account_flushed_slot ≡ acct)

  FrontiersAt-Withstands : (ix acct : Option Slot) → Withstands Anywhere (FrontiersAt ix acct)
  unfolding with_buffer late_record_drop discard_slot prune_discarded_slots
  FrontiersAt-Withstands ix acct = record {
    contained = λ slot st h. tt;
    buffered = λ slot f st h at p. p;
    counted = λ slot st p. p;
    uncounted = λ slot st p. p;
    late_record = λ st p. p;
    late_event = λ st p. p;
    discarded = λ slot st p. p;
  }

  pub apply-FrontiersAt :
      (e : CoordinatorEvent R) (st : CoordinatorState R)
      → FrontiersAt st.last_instruction_flushed_slot st.last_account_flushed_slot (apply e st)
  apply-FrontiersAt e st =
      apply_keeps Anywhere _ (FrontiersAt-Withstands _ _) e st (Orderly-Anywhere e st) (refl, refl)
