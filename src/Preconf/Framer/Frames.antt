-- ===== src/Preconf/Framer/Frames.antt =====
-- The frames of crates/preconf-source/src/framer.rs: their order, their number, and what one
-- transaction does to them.
use shipstern.Base.{
  ℕ, ◌≤◌, ◌≡◌, refl, Bool, Option, none, some, List, [], ◌∷◌, inl, inr, arith, leb, length, inc64,
  Bool-cases, Option-cases,
}
use shipstern.Base.Maps.{Map, nat_ord, modify, Above, IsSorted, insert-IsSorted, retain-IsSorted}
use shipstern.Preconf.Convert.{Bytes, VersionedTransaction}
use shipstern.Preconf.Framer.{
  Name, ExecutionResult, Preconf, HarmonicPayload, BamPayload, slot_start, slot_end, FeedUpdate,
  harmonic, bam, Frame, default_frame, Framer, Applied, with_frame, frame_of, cap_frames, advance,
  unknown_payload, clip_transactions, next_index, unknown_result, undecodable, vote_rule_dropped,
  emit, emit_wanted, route, take_signed, take_decoded, take_result, take_transaction, open_frame,
  start_slot, take_harmonic, take_bam, take_update, apply_update, max_frames,
}

abbrev pub bump : Frame → Frame
bump frame = record frame { next = inc64 frame.next }

-- What a transaction for a slot does to the frames: nothing if it is dropped, else it takes the
-- next index of its slot.
abbrev pub Took : ℕ → Framer → Applied → Type 0
Took slot f (none, f') = f'.frames ≡ f.frames
Took slot f (some out, f') =
    (out.slot ≡ slot)
    × (out.index ≡ (frame_of f slot).next)
    × (f'.frames ≡ modify slot default_frame bump f.frames)

module _ (decode : Bytes → Option VersionedTransaction)
    (is_simple_vote : List Bytes → Bool → List Bytes → Bool) where
  emit_wanted-Took :
      (filters : List Name) (slot : ℕ) (result : ExecutionResult) (tx : VersionedTransaction)
      (signature : Bytes) (f : Framer)
      → Took slot f (emit_wanted decode is_simple_vote filters slot result tx signature f)
  unfolding emit_wanted vote_rule_dropped emit next_index with_frame
  emit_wanted-Took [] slot result tx signature f = refl
  emit_wanted-Took (n ∷ ns) slot result tx signature f = (refl, refl, refl)

  route-Took :
      (filters : List Name) (slot : ℕ) (result : ExecutionResult) (tx : VersionedTransaction)
      (signature : Bytes) (f : Framer)
      → Took slot f (route decode is_simple_vote filters slot result tx signature f)
  unfolding route unknown_payload
  route-Took [] slot result tx signature f = refl
  route-Took (n ∷ ns) slot result tx signature f = emit_wanted-Took _ slot result tx signature f

  take_signed-Took :
      (filters : List Name) (slot : ℕ) (result : ExecutionResult) (tx : VersionedTransaction)
      (signatures : List Bytes) (f : Framer)
      → Took slot f (take_signed decode is_simple_vote filters slot result tx signatures f)
  unfolding take_signed undecodable
  take_signed-Took filters slot result tx [] f = refl
  take_signed-Took filters slot result tx (s ∷ _) f = route-Took filters slot result tx s f

  take_decoded-Took :
      (filters : List Name) (slot : ℕ) (result : ExecutionResult) (tx : Option VersionedTransaction)
      (f : Framer)
      → Took slot f (take_decoded decode is_simple_vote filters slot result tx f)
  unfolding take_decoded undecodable
  take_decoded-Took filters slot result none f = refl
  take_decoded-Took filters slot result (some tx) f =
      take_signed-Took filters slot result tx tx.signatures f

  take_result-Took :
      (filters : List Name) (slot : ℕ) (result : Option ExecutionResult) (bytes : Bytes)
      (f : Framer)
      → Took slot f (take_result decode is_simple_vote filters slot result bytes f)
  unfolding take_result unknown_result
  take_result-Took filters slot none bytes f = refl
  take_result-Took filters slot (some result) bytes f =
      take_decoded-Took filters slot result (decode bytes) f

  pub take_transaction-Took :
      (filters : List Name) (tx : Preconf) (f : Framer)
      → Took tx.slot f (take_transaction decode is_simple_vote filters tx f)
  unfolding take_transaction
  take_transaction-Took filters tx f =
      take_result-Took filters tx.slot tx.execution_result tx.transaction f

  pub Took-IsSorted :
      (slot : ℕ) (f : Framer) (a : Applied)
      → IsSorted f.frames
      → Took slot f a
      → IsSorted a.1.frames
  Took-IsSorted slot f (none, f') s t = rw t s
  Took-IsSorted slot f (some out, f') s t = rw (t.2) (insert-IsSorted slot _ f.frames s)

  pub advance-IsSorted :
      (slot : ℕ) (f : Framer) → IsSorted f.frames → IsSorted (advance slot f).frames
  unfolding advance
  advance-IsSorted slot f s = elim (Option-cases f.frontier) [
    | inl e ↦ rw (e, advance) (retain-IsSorted _ f.frames s)
    | inr (last, e) ↦ elim (Bool-cases (leb slot last)) [
      | inl h ↦ rw (e, h) s
      | inr h ↦ rw (e, h) (retain-IsSorted _ f.frames s)
    ]
  ]

  take_harmonic-IsSorted :
      (filters : List Name) (p : Option HarmonicPayload) (f : Framer)
      → IsSorted f.frames
      → IsSorted (take_harmonic decode is_simple_vote filters p f).1.frames
  unfolding take_harmonic unknown_payload clip_transactions start_slot with_frame
  take_harmonic-IsSorted filters none f s = s
  take_harmonic-IsSorted filters (some (HarmonicPayload.transaction tx)) f s =
      Took-IsSorted tx.slot f _ s (take_transaction-Took filters tx f)
  take_harmonic-IsSorted filters (some (slot_start slot)) f s = insert-IsSorted slot _ f.frames s
  take_harmonic-IsSorted filters (some (slot_end slot)) f s =
      advance-IsSorted slot _ (insert-IsSorted slot _ f.frames s)
  take_harmonic-IsSorted filters (some (HarmonicPayload.clip n)) f s = s
  take_harmonic-IsSorted filters (some HarmonicPayload.ping) f s = s

  take_bam-IsSorted :
      (filters : List Name) (p : Option BamPayload) (f : Framer)
      → IsSorted f.frames
      → IsSorted (take_bam decode is_simple_vote filters p f).1.frames
  unfolding take_bam unknown_payload clip_transactions with_frame
  take_bam-IsSorted filters none f s = s
  take_bam-IsSorted filters (some (BamPayload.transaction tx)) f s = advance-IsSorted tx.slot _ (
      Took-IsSorted tx.slot (with_frame tx.slot open_frame f) _
        (insert-IsSorted tx.slot _ f.frames s)
        (take_transaction-Took filters tx (with_frame tx.slot open_frame f)))
  take_bam-IsSorted filters (some (BamPayload.clip n)) f s = s
  take_bam-IsSorted filters (some BamPayload.ping) f s = s

  pub take_update-IsSorted :
      (u : FeedUpdate) (f : Framer)
      → IsSorted f.frames
      → IsSorted (take_update decode is_simple_vote u f).1.frames
  unfolding take_update
  take_update-IsSorted (harmonic filters p) f s = take_harmonic-IsSorted filters p f s
  take_update-IsSorted (bam filters p) f s = take_bam-IsSorted filters p f s

cap_frames-Above : (k : ℕ) (m : Map ℕ Frame) → Above k m → Above k (cap_frames m)
unfolding cap_frames
cap_frames-Above k [] a = tt
cap_frames-Above k ((j, w) ∷ m) a = ground (arith, cap_frames-Above k m a.1)

cap_frames-IsSorted : (m : Map ℕ Frame) → IsSorted m → IsSorted (cap_frames m)
unfolding cap_frames
cap_frames-IsSorted [] s = tt
cap_frames-IsSorted ((j, w) ∷ m) s = ground (arith, cap_frames-IsSorted m s.1)

length-cap_frames : (m : Map ℕ Frame) → length (cap_frames m) ≤ max_frames
unfolding cap_frames
length-cap_frames [] = omega arith
length-cap_frames ((j, w) ∷ m) = ground (arith, length-cap_frames m)

module _ (decode : Bytes → Option VersionedTransaction)
    (is_simple_vote : List Bytes → Bool → List Bytes → Bool) where
  pub apply_update-IsSorted :
      (u : FeedUpdate) (f : Framer)
      → IsSorted f.frames
      → IsSorted (apply_update decode is_simple_vote u f).1.frames
  unfolding apply_update
  apply_update-IsSorted u f s =
      cap_frames-IsSorted _ (take_update-IsSorted decode is_simple_vote u f s)

  -- After any update, in any state, the index map has at most `max_frames` entries.
  pub length-apply_update :
      (u : FeedUpdate) (f : Framer)
      → length (apply_update decode is_simple_vote u f).1.frames ≤ max_frames
  unfolding apply_update
  length-apply_update u f = length-cap_frames (take_update decode is_simple_vote u f).1.frames
