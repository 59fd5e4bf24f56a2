-- ===== src/Runtime/Buffer.antt =====
-- The buffer loop of crates/runtime/src/buffer.rs, `run_yellowstone`, as steps of its three parties: the
-- task that takes updates, the bridge thread, and the job tasks. A permit is held from before a job is
-- queued until the job ends.
pub mod Drained
use shipstern.Base.{
  ℕ, ◌+◌, ◌-◌, ◌≤◌, ◌<◌, ◌^◌, ◌≡◌, refl, sym, ap, ◌∙◌, Bool, true, false, Option, none, some, List,
  [], ◌∷◌, ◌++◌, arith, length, unwrap_or, min, max,
}

-- `clamp(1, Semaphore::MAX_PERMITS)`, on what is configured or the parallelism of the machine.
unfoldable pub job_limit : Option ℕ → ℕ → ℕ → ℕ
job_limit configured parallelism max_permits =
    min (max (unwrap_or configured parallelism) 1) max_permits

-- Why the loop ended: the stream was closed, it failed, or a stop came.
pub data Ending : Type 0 where
  closed failed stopped : Ending

-- The parties at one moment, the jobs by their number in the order of the updates.
pub record State : Type 0 where
  pub free : ℕ
  pub holding : ℕ
  pub queued : List ℕ
  pub running : List ℕ
  pub received : ℕ
  pub finished : List ℕ
  pub dropped : List ℕ
  pub ended : Option Ending
  pub aborted : Bool
  pub gave_up : Bool

abbrev pub start : ℕ → State
start jobs = record {
  free = jobs;
  holding = 0;
  queued = [];
  running = [];
  received = 0;
  finished = [];
  dropped = [];
  ended = none;
  aborted = false;
  gave_up = false;
}

abbrev pub drains : Ending → Bool
drains closed = true
drains failed = false
drains stopped = false

pub data Step (s t : State) : Type 0 where
  -- An update has come and a permit is free.
  acquire :
      (n : ℕ)
      → s.ended ≡ none
      → s.holding ≡ 0
      → s.free ≡ n + 1
      → t ≡ record s { free = n; holding = 1 }
      → Step s t
  enqueue :
      s.ended ≡ none
      → s.holding ≡ 1
      → t
        ≡ record s { holding = 0; queued = s.queued ++ s.received ∷ []; received = s.received + 1 }
      → Step s t
  -- The loop ends between two updates, or while it waits for a permit; an update that waits is lost.
  end : (e : Ending) → s.ended ≡ none → s.holding ≡ 0 → t ≡ record s { ended = some e } → Step s t
  -- The flag is stored after the loop, unless the queue is to be drained.
  abort :
      (e : Ending)
      → s.ended ≡ some e
      → drains e ≡ false
      → t ≡ record s { aborted = true }
      → Step s t
  -- `drain_in_flight` has waited for the permits up to its ceiling: what runs is left to itself.
  give_up : (e : Ending) → s.ended ≡ some e → t ≡ record s { gave_up = true } → Step s t
  -- The bridge takes the next job and spawns or discards it.
  spawn :
      (j : ℕ) (rest : List ℕ)
      → s.queued ≡ j ∷ rest
      → s.aborted ≡ false
      → t ≡ record s { queued = rest; running = j ∷ s.running }
      → Step s t
  discard :
      (j : ℕ) (rest : List ℕ)
      → s.queued ≡ j ∷ rest
      → s.aborted ≡ true
      → t ≡ record s { queued = rest; dropped = j ∷ s.dropped; free = s.free + 1 }
      → Step s t
  -- A job ends, in any order, if it does: nothing here says that a handler returns.
  finish :
      (before after : List ℕ) (j : ℕ)
      → s.running ≡ before ++ j ∷ after
      → t ≡ record s { running = before ++ after; finished = j ∷ s.finished; free = s.free + 1 }
      → Step s t

pub data Reach (s : State) : State → Type 0 where
  here : Reach s s
  next : {t u : State} → Reach s t → Step t u → Reach s u

-- Every permit is free or held by one job; every job that was received is in one place; the flag is
-- set only after an end that does not drain, and only then is a job dropped.
pub record IsAccounted (jobs : ℕ) (s : State) : Type 0 where
  pub permits : s.free + s.holding + length s.queued + length s.running ≡ jobs
  pub places :
      length s.queued + length s.running + length s.finished + length s.dropped ≡ s.received
  pub calm : s.aborted ≡ false → length s.dropped ≡ 0
  pub settled : (e : Ending) → s.ended ≡ some e → s.holding ≡ 0
  pub cause : s.aborted ≡ true → (e : Ending) × (s.ended ≡ some e) × (drains e ≡ false)
