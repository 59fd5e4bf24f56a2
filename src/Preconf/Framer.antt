-- ===== src/Preconf/Framer.antt =====
-- crates/preconf-source/src/framer.rs: the state machine of one preconfirmation stream, feed
-- updates in, runtime updates out. Log lines are left out, and with them the feed and the fields
-- that are only logged. The vote rules are a function of the parser's name. An update that goes
-- out is always a transaction, so `SubscribeUpdate` has its fields directly.
pub mod Emission
pub mod Frames
pub mod Indexes
pub mod Runs
pub mod Tallies
use shipstern.Base.{
  ℕ, ◌+◌, ◌-◌, ◌*◌, ◌^◌, Bool, true, false, not, Option, none, some, List, [], ◌∷◌, leb, ltb, min,
  inc64, unwrap_or, if◌then◌else◌, length, keep,
}
use shipstern.Base.Maps.{Map, nat_ord, get, insert, retain, modify}
use shipstern.Preconf.Convert.{
  Bytes, VersionedTransaction, ProtoTransaction, TransactionStatusMeta, transaction as to_proto,
  meta, is_vote,
}
unfoldable pub use shipstern.Preconf.Feed.{is_progress, new_framer}
pub use shipstern.Preconf.Feed.{
  slot_retention, max_frames, Name, ExecutionResult, success, execution_failure, fees_only, Preconf,
  HarmonicPayload, BamPayload, slot_start, slot_end, FeedUpdate, harmonic, bam, Counts, Frame,
  default_frame, Framer, SubscribeUpdate, Applied,
}

-- `self.frames.entry(slot).or_default()` and a change through it.
unfoldable pub with_frame : ℕ → (Frame → Frame) → Framer → Framer
with_frame slot g f = record f { frames = modify slot default_frame g f.frames }

unfoldable pub frame_of : Framer → ℕ → Frame
frame_of f slot = unwrap_or (get slot f.frames) default_frame

-- `while self.frames.len() > MAX_FRAMES { self.frames.pop_first() }`
unfoldable pub cap_frames : Map ℕ Frame → Map ℕ Frame
cap_frames [] = []
cap_frames (e ∷ m) =
    let rest = cap_frames m in if ltb max_frames (length (e ∷ m)) then rest else e ∷ m

unfoldable pub advance : ℕ → Framer → Framer
advance slot f =
    if (elim f.frontier [ none ↦ false | some frontier ↦ leb slot frontier ]) then f else record f {
      frontier = some slot;
      frames = retain (λ s _. leb (slot - slot_retention) s) f.frames;
    }

unfoldable pub unknown_payload : Framer → Applied
unknown_payload f = (
  none,
  record f { counts = record f.counts { unknown_payload = inc64 f.counts.unknown_payload } },
)

unfoldable pub clip_transactions : ℕ → Framer → Applied
clip_transactions withheld f = (
  none,
  record f {
    counts = record f.counts { clipped = min (f.counts.clipped + withheld) (2 ^ 64 - 1) };
  },
)

abbrev pub count_gap : Bool → Counts → Counts
count_gap true c = c
count_gap false c = record c { out_of_frame = inc64 c.out_of_frame }

-- The index, and the framer that has given it out.
unfoldable pub next_index : ℕ → Framer → ℕ × Framer
unfolding frame_of with_frame
next_index slot f = (
  (frame_of f slot).next,
  record (with_frame slot (λ frame. record frame { next = inc64 frame.next }) f) {
    counts = count_gap (frame_of f slot).is_open f.counts;
  },
)

abbrev pub failed : ExecutionResult → Bool
failed success = false
failed _ = true

unfoldable pub unknown_result : Framer → Applied
unknown_result f = (
  none,
  record f {
    counts = record f.counts { unknown_result = inc64 f.counts.unknown_result };
    warned_unknown_result = true;
  },
)

unfoldable pub undecodable : Framer → Applied
undecodable f =
    (none, record f { counts = record f.counts { undecodable = inc64 f.counts.undecodable } })

unfoldable pub vote_rule_dropped : Framer → Applied
vote_rule_dropped f = (
  none,
  record f { counts = record f.counts { vote_rule_dropped = inc64 f.counts.vote_rule_dropped } },
)

-- The rule of the parser lets the vote flag through.
unfoldable pub is_wanted : (Name → Option Bool) → Bool → Name → Bool
is_wanted rules vote name = elim (rules name) [
  | none ↦ true
  | some wanted ↦ if wanted then vote else not vote
]

abbrev pub open_frame : Frame → Frame
open_frame frame = record frame { is_open = true }

abbrev pub start_frame : Frame → Frame
start_frame frame = record frame { is_open = true; ended = false }

abbrev pub end_frame : Frame → Frame
end_frame frame = record frame { is_open = false; ended = true }

abbrev pub count_restart : Bool → Counts → Counts
count_restart true c = record c { restarts = inc64 c.restarts }
count_restart false c = c

unfoldable pub start_slot : ℕ → Framer → Framer
unfolding with_frame frame_of
start_slot slot f = record (with_frame slot start_frame f) {
  counts = count_restart (frame_of f slot).ended f.counts;
}

abbrev pub advanced : ℕ → Applied → Applied
advanced slot (out, f) = (out, advance slot f)

abbrev pub capped : Applied → Applied
capped (out, f) = (out, record f { frames = cap_frames f.frames })

module _ (decode : Bytes → Option VersionedTransaction)
    (is_simple_vote : List Bytes → Bool → List Bytes → Bool) where
  -- The transaction goes out under its next index.
  unfoldable pub emit :
      List Name → ℕ → ExecutionResult → VersionedTransaction → Bytes → Framer → Applied
  unfolding next_index
  emit filters slot result tx signature f = (
    some (record {
      filters = filters;
      slot = slot;
      signature = signature;
      is_vote = is_vote is_simple_vote tx;
      transaction = to_proto tx;
      status = meta (failed result);
      index = (next_index slot f).0;
    }),
    (next_index slot f).1,
  )

  -- With the names that the vote rules have left.
  unfoldable pub emit_wanted :
      List Name → ℕ → ExecutionResult → VersionedTransaction → Bytes → Framer → Applied
  unfolding emit vote_rule_dropped
  emit_wanted [] slot result tx signature f = vote_rule_dropped f
  emit_wanted (n ∷ ns) slot result tx signature f = emit (n ∷ ns) slot result tx signature f

  -- With the names that the feed has matched.
  unfoldable pub route :
      List Name → ℕ → ExecutionResult → VersionedTransaction → Bytes → Framer → Applied
  unfolding emit_wanted is_wanted unknown_payload keep
  route [] slot result tx signature f = unknown_payload f
  route (n ∷ ns) slot result tx signature f =
      emit_wanted (keep (is_wanted f.vote_rules (is_vote is_simple_vote tx)) (n ∷ ns)) slot result
        tx signature f

  unfoldable pub take_signed :
      List Name → ℕ → ExecutionResult → VersionedTransaction → List Bytes → Framer → Applied
  unfolding route undecodable
  take_signed filters slot result tx [] f = undecodable f
  take_signed filters slot result tx (signature ∷ _) f = route filters slot result tx signature f

  unfoldable pub take_decoded :
      List Name → ℕ → ExecutionResult → Option VersionedTransaction → Framer → Applied
  unfolding take_signed undecodable
  take_decoded filters slot result none f = undecodable f
  take_decoded filters slot result (some tx) f = take_signed filters slot result tx tx.signatures f

  unfoldable pub take_result : List Name → ℕ → Option ExecutionResult → Bytes → Framer → Applied
  unfolding take_decoded unknown_result
  take_result filters slot none bytes f = unknown_result f
  take_result filters slot (some result) bytes f = take_decoded filters slot result (decode bytes) f

  unfoldable pub take_transaction : List Name → Preconf → Framer → Applied
  unfolding take_result
  take_transaction filters tx f = take_result filters tx.slot tx.execution_result tx.transaction f

  unfoldable pub take_harmonic : List Name → Option HarmonicPayload → Framer → Applied
  unfolding take_transaction start_slot advance clip_transactions unknown_payload with_frame
  take_harmonic filters none f = unknown_payload f
  take_harmonic filters (some (HarmonicPayload.transaction tx)) f = take_transaction filters tx f
  take_harmonic filters (some (slot_start slot)) f = (none, start_slot slot f)
  take_harmonic filters (some (slot_end slot)) f =
      (none, advance slot (with_frame slot end_frame f))
  take_harmonic filters (some (HarmonicPayload.clip withheld)) f = clip_transactions withheld f
  take_harmonic filters (some HarmonicPayload.ping) f = (none, f)

  unfoldable pub take_bam : List Name → Option BamPayload → Framer → Applied
  unfolding take_transaction advance clip_transactions unknown_payload with_frame
  take_bam filters none f = unknown_payload f
  take_bam filters (some (BamPayload.transaction tx)) f =
      advanced tx.slot (take_transaction filters tx (with_frame tx.slot open_frame f))
  take_bam filters (some (BamPayload.clip withheld)) f = clip_transactions withheld f
  take_bam filters (some BamPayload.ping) f = (none, f)

  unfoldable pub take_update : FeedUpdate → Framer → Applied
  unfolding take_harmonic take_bam
  take_update (harmonic filters payload) f = take_harmonic filters payload f
  take_update (bam filters payload) f = take_bam filters payload f

  unfoldable pub apply_update : FeedUpdate → Framer → Applied
  unfolding take_update cap_frames
  apply_update u f = capped (take_update u f)

-- Each open frame ends with the stream that was lost.
unfoldable pub close_frames : Map ℕ Frame → Map ℕ Frame
close_frames [] = []
close_frames ((slot, frame) ∷ m) =
    (
      slot,
      record {
        next = frame.next;
        is_open = false;
        ended = if frame.is_open then true else frame.ended;
      },
    )
    ∷ close_frames m

unfoldable pub reconnected : Framer → Framer
unfolding close_frames
reconnected f = record f {
  frames = close_frames f.frames;
  counts = record f.counts { reconnects = inc64 f.counts.reconnects };
}
