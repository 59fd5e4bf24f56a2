-- ===== src/Preconf/Feed.antt =====
-- The data of crates/preconf-source/src/framer.rs: the updates of the two feeds, the state of one
-- stream and the runtime updates that it gives.
use shipstern.Base.{ℕ, ◌*◌, Bool, true, false, Option, none, some, List, []}
use shipstern.Base.Maps.{Map}
use shipstern.Preconf.Convert.{Bytes, ProtoTransaction, TransactionStatusMeta}

abbrev pub slot_retention : ℕ
slot_retention = 64

abbrev pub max_frames : ℕ
max_frames = 4 * slot_retention

-- The names of parsers.
abbrev pub Name : Type 0
Name = Bytes

pub data ExecutionResult : Type 0 where
  success execution_failure fees_only : ExecutionResult

-- A transaction of either feed; an unset result is `none`.
pub record Preconf : Type 0 where
  pub slot : ℕ
  pub execution_result : Option ExecutionResult
  pub transaction : Bytes

pub data HarmonicPayload : Type 0 where
  transaction : Preconf → HarmonicPayload
  slot_start slot_end clip : ℕ → HarmonicPayload
  ping : HarmonicPayload

pub data BamPayload : Type 0 where
  transaction : Preconf → BamPayload
  clip : ℕ → BamPayload
  ping : BamPayload

pub data FeedUpdate : Type 0 where
  harmonic : List Name → Option HarmonicPayload → FeedUpdate
  bam : List Name → Option BamPayload → FeedUpdate

unfoldable pub is_progress : FeedUpdate → Bool
is_progress (harmonic filters (some (HarmonicPayload.transaction tx))) = true
is_progress (harmonic filters (some (slot_start slot))) = true
is_progress (harmonic filters _) = false
is_progress (bam filters (some (BamPayload.transaction tx))) = true
is_progress (bam filters _) = false

-- `delivered` is counted where the update is sent on.
pub record Counts : Type 0 where
  pub delivered : ℕ
  pub unknown_result : ℕ
  pub vote_rule_dropped : ℕ
  pub undecodable : ℕ
  pub out_of_frame : ℕ
  pub clipped : ℕ
  pub restarts : ℕ
  pub unknown_payload : ℕ
  pub reconnects : ℕ

pub record Frame : Type 0 where
  pub next : ℕ
  pub is_open : Bool
  pub ended : Bool

abbrev pub default_frame : Frame
default_frame = record { next = 0; is_open = false; ended = false }

pub record Framer : Type 0 where
  pub vote_rules : Name → Option Bool
  pub frames : Map ℕ Frame
  pub frontier : Option ℕ
  pub warned_unknown_result : Bool
  pub counts : Counts

unfoldable pub new_framer : (Name → Option Bool) → Framer
new_framer vote_rules = record {
  vote_rules = vote_rules;
  frames = [];
  frontier = none;
  warned_unknown_result = false;
  counts = record {
    delivered = 0;
    unknown_result = 0;
    vote_rule_dropped = 0;
    undecodable = 0;
    out_of_frame = 0;
    clipped = 0;
    restarts = 0;
    unknown_payload = 0;
    reconnects = 0;
  };
}

pub record SubscribeUpdate : Type 0 where
  pub filters : List Name
  pub slot : ℕ
  pub signature : Bytes
  pub is_vote : Bool
  pub transaction : ProtoTransaction
  pub status : TransactionStatusMeta
  pub index : ℕ

abbrev pub Applied : Type 0
Applied = Option SubscribeUpdate × Framer
