-- ===== src/Preconf/Framer/Tallies.antt =====
-- Where the transactions of a feed go in crates/preconf-source/src/framer.rs: out, or into one of
-- the counters of what was dropped.
use shipstern.Base.{
  ℕ, ◌+◌, ◌^◌, ◌<◌, ◌≡◌, refl, ap, ◌∙◌, Bool, true, false, Option, none, some, List, [], ◌∷◌, arith,
  inc64_lem,
}
use shipstern.Base.Maps.{nat_ord}
use shipstern.Preconf.Convert.{Bytes, VersionedTransaction}
use shipstern.Preconf.Framer.{
  Name, ExecutionResult, Preconf, HarmonicPayload, BamPayload, harmonic, bam, Counts, Framer,
  Applied, with_frame, advance, open_frame, advanced, capped, next_index, unknown_payload,
  unknown_result, undecodable, vote_rule_dropped, emit, emit_wanted, route, take_signed,
  take_decoded, take_result, take_transaction, take_harmonic, take_bam, take_update, apply_update,
  count_gap,
}

-- The transactions that were dropped.
abbrev pub dropped : Counts → ℕ
dropped c = c.unknown_result + c.undecodable + c.vote_rule_dropped + c.unknown_payload

-- No counter of dropped transactions is about to wrap.
pub record HasRoom (c : Counts) : Type 0 where
  pub unknown_result : c.unknown_result + 1 < 2 ^ 64
  pub undecodable : c.undecodable + 1 < 2 ^ 64
  pub vote_rule_dropped : c.vote_rule_dropped + 1 < 2 ^ 64
  pub unknown_payload : c.unknown_payload + 1 < 2 ^ 64

-- A transaction goes out, with the counters as they were, or is counted once as dropped.
abbrev pub Accounted : Counts → Applied → Type 0
Accounted c (none, f') = dropped f'.counts ≡ dropped c + 1
Accounted c (some out, f') = dropped f'.counts ≡ dropped c

advance_counts : (slot : ℕ) (f : Framer) → (advance slot f).counts ≡ f.counts
unfolding advance
advance_counts slot f = ground arith

under_cap : (c : Counts) (a : Applied) → Accounted c a → Accounted c (capped a)
under_cap c (none, f') h = h
under_cap c (some out, f') h = h

under_advance :
    (c : Counts) (slot : ℕ) (a : Applied) → Accounted c a → Accounted c (advanced slot a)
under_advance c slot (none, f') h = ap dropped (advance_counts slot f') ∙ h
under_advance c slot (some out, f') h = ap dropped (advance_counts slot f') ∙ h

count_gap-dropped : (b : Bool) (c : Counts) → dropped (count_gap b c) ≡ dropped c
count_gap-dropped true c = refl
count_gap-dropped false c = refl

module _ (decode : Bytes → Option VersionedTransaction)
    (is_simple_vote : List Bytes → Bool → List Bytes → Bool) where
  undecodable-Accounted : (f : Framer) → HasRoom f.counts → Accounted f.counts (undecodable f)
  unfolding undecodable
  undecodable-Accounted f r = rw (inc64_lem f.counts.undecodable r.undecodable) (omega arith)

  emit_wanted-Accounted :
      (filters : List Name) (slot : ℕ) (result : ExecutionResult) (tx : VersionedTransaction)
      (signature : Bytes) (f : Framer)
      → HasRoom f.counts
      → Accounted f.counts (emit_wanted decode is_simple_vote filters slot result tx signature f)
  unfolding emit_wanted vote_rule_dropped emit next_index with_frame
  emit_wanted-Accounted [] slot result tx signature f r =
      rw (inc64_lem f.counts.vote_rule_dropped r.vote_rule_dropped) (omega arith)
  emit_wanted-Accounted (n ∷ ns) slot result tx signature f r = count_gap-dropped _ f.counts

  route-Accounted :
      (filters : List Name) (slot : ℕ) (result : ExecutionResult) (tx : VersionedTransaction)
      (signature : Bytes) (f : Framer)
      → HasRoom f.counts
      → Accounted f.counts (route decode is_simple_vote filters slot result tx signature f)
  unfolding route unknown_payload
  route-Accounted [] slot result tx signature f r =
      rw (inc64_lem f.counts.unknown_payload r.unknown_payload) (omega arith)
  route-Accounted (n ∷ ns) slot result tx signature f r =
      emit_wanted-Accounted _ slot result tx signature f r

  take_signed-Accounted :
      (filters : List Name) (slot : ℕ) (result : ExecutionResult) (tx : VersionedTransaction)
      (signatures : List Bytes) (f : Framer)
      → HasRoom f.counts
      → Accounted f.counts (take_signed decode is_simple_vote filters slot result tx signatures f)
  unfolding take_signed
  take_signed-Accounted filters slot result tx [] f r = undecodable-Accounted f r
  take_signed-Accounted filters slot result tx (s ∷ _) f r =
      route-Accounted filters slot result tx s f r

  take_decoded-Accounted :
      (filters : List Name) (slot : ℕ) (result : ExecutionResult) (tx : Option VersionedTransaction)
      (f : Framer)
      → HasRoom f.counts
      → Accounted f.counts (take_decoded decode is_simple_vote filters slot result tx f)
  unfolding take_decoded
  take_decoded-Accounted filters slot result none f r = undecodable-Accounted f r
  take_decoded-Accounted filters slot result (some tx) f r =
      take_signed-Accounted filters slot result tx tx.signatures f r

  take_result-Accounted :
      (filters : List Name) (slot : ℕ) (result : Option ExecutionResult) (bytes : Bytes)
      (f : Framer)
      → HasRoom f.counts
      → Accounted f.counts (take_result decode is_simple_vote filters slot result bytes f)
  unfolding take_result unknown_result
  take_result-Accounted filters slot none bytes f r =
      rw (inc64_lem f.counts.unknown_result r.unknown_result) (omega arith)
  take_result-Accounted filters slot (some result) bytes f r =
      take_decoded-Accounted filters slot result (decode bytes) f r

  -- With room in the counters, a transaction of the Harmonic feed goes out or is counted once in
  -- one counter of drops, never both and never neither.
  pub harmonic-Accounted :
      (filters : List Name) (tx : Preconf) (f : Framer)
      → HasRoom f.counts
      → Accounted f.counts (
          apply_update decode is_simple_vote
            (harmonic filters (some (HarmonicPayload.transaction tx)))
            f)
  unfolding apply_update take_update take_harmonic take_transaction
  harmonic-Accounted filters tx f r =
      under_cap f.counts _
        (take_result-Accounted filters tx.slot tx.execution_result tx.transaction f r)

  -- With room in the counters, a transaction of the BAM feed goes out or is counted once in one
  -- counter of drops, never both and never neither.
  pub bam-Accounted :
      (filters : List Name) (tx : Preconf) (f : Framer)
      → HasRoom f.counts
      → Accounted f.counts
          (apply_update decode is_simple_vote (bam filters (some (BamPayload.transaction tx))) f)
  unfolding apply_update take_update take_bam take_transaction with_frame
  bam-Accounted filters tx f r = under_cap f.counts _ (
      under_advance f.counts tx.slot _ (
        take_result-Accounted filters tx.slot tx.execution_result tx.transaction
          (with_frame tx.slot open_frame f) r))
