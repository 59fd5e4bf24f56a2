-- ===== src/Preconf/Reconnect.antt =====
-- crates/preconf-source/src/reconnect.rs: when a stream that dropped is subscribed again. Streams
-- and their opening are a list of answers, one for each turn of the loop, with the time that has
-- passed. `bounded` and `sleep` are tokio's: an attempt that does not answer
-- in time is an attempt that fails with `deadline_exceeded`.
pub mod Waits
pub mod Attempts
use shipstern.Base.{
  ℕ, zero, suc, ◌+◌, ◌-◌, ◌*◌, ◌^◌, Bool, true, false, not, ◌&&◌, Option, none, some, List, [], ◌∷◌,
  leb, min, if◌then◌else◌,
}
use shipstern.Preconf.Framer.{FeedUpdate, is_progress}

-- tonic's status codes.
pub data Code : Type 0 where
  ok cancelled unknown invalid_argument deadline_exceeded not_found already_exists
        permission_denied :
      Code
  resource_exhausted failed_precondition aborted out_of_range unimplemented internal unavailable :
      Code
  data_loss unauthenticated : Code

abbrev pub initial_wait : ℕ
initial_wait = 100

abbrev pub max_wait : ℕ
max_wait = 10000

abbrev pub stable : ℕ
stable = 60000

pub record Policy : Type 0 where
  pub enabled : Bool
  pub max_retries : Option ℕ
  pub subscribe_timeout : ℕ

unfoldable pub retryable : Code → Bool
retryable unavailable = true
retryable data_loss = true
retryable resource_exhausted = true
retryable internal = true
retryable unknown = true
retryable aborted = true
retryable cancelled = true
retryable deadline_exceeded = true
retryable _ = false

unfoldable pub retries : Policy → ℕ → Option Code → Bool
unfolding retryable
retries policy attempt code =
    policy.enabled
    && ((elim code [ none ↦ true | some c ↦ retryable c ])
        && (elim policy.max_retries [ none ↦ true | some limit ↦ leb attempt limit ]))

-- `u32::saturating_pow` of 2, and `Duration::saturating_mul`, which cannot saturate here.
unfoldable pub wait : ℕ → ℕ
wait attempt = min (initial_wait * min (2 ^ (attempt - 1)) (2 ^ 32 - 1)) max_wait

pub data Yield : Type 0 where
  yielded : FeedUpdate → Yield
  failed_with : Code → Yield
  finished : Yield

-- What the world has ready at one turn of the loop: what the stream yields and how long it has
-- been up, in milliseconds, should there be a stream, and what a new subscribe answers, `none` for
-- a stream, should there be none.
pub record Answer : Type 0 where
  pub stream_next : Yield
  pub elapsed : ℕ
  pub subscribe : Option Code

pub data Item : Type 0 where
  item_update : FeedUpdate → Item
  item_error : Code → Item
  reconnected : Item
  ended : Item

pub record Resubscriber : Type 0 where
  pub has_stream : Bool
  pub policy : Policy
  pub attempt : ℕ
  pub done : Bool

abbrev pub saturating_inc32 : ℕ → ℕ
saturating_inc32 n = min (n + 1) (2 ^ 32 - 1)

unfoldable pub resubscribing : Policy → Resubscriber
resubscribing policy = record { has_stream = true; policy = policy; attempt = 0; done = false }

abbrev pub final_item : Option Code → Item
final_item none = ended
final_item (some code) = item_error code

-- A stream that was up for long starts the schedule over.
unfoldable pub settle : ℕ → Resubscriber → Resubscriber
settle elapsed r = record r {
  attempt = if r.has_stream && leb stable elapsed then 0 else r.attempt;
}

unfoldable pub schedule : Option Code → Resubscriber → Option Item × Resubscriber
unfolding retries
schedule code r =
    if retries r.policy (saturating_inc32 r.attempt) code
    then (none, record r { attempt = saturating_inc32 r.attempt; has_stream = false })
    else (some (final_item code), record r { done = true })

unfoldable pub fail : ℕ → Option Code → Resubscriber → Option Item × Resubscriber
unfolding settle schedule
fail elapsed code r = schedule code (settle elapsed r)

unfoldable pub take_yield : Yield → ℕ → Resubscriber → Option Item × Resubscriber
unfolding fail is_progress
take_yield (yielded u) elapsed r =
    (some (item_update u), record r { attempt = if is_progress u then 0 else r.attempt })
take_yield (failed_with code) elapsed r = fail elapsed (some code) r
take_yield finished elapsed r = fail elapsed none r

unfoldable pub resubscribe : Option Code → ℕ → Resubscriber → Option Item × Resubscriber
unfolding fail
resubscribe none elapsed r = (some reconnected, record r { has_stream = true })
resubscribe (some code) elapsed r = fail elapsed (some code) r

-- One turn of the loop of `next`: an item ends the call, nothing goes round again.
unfoldable pub turn : Answer → Resubscriber → Option Item × Resubscriber
unfolding take_yield resubscribe
turn a r =
    if r.has_stream
    then take_yield a.stream_next a.elapsed r
    else resubscribe a.subscribe a.elapsed r

abbrev pub with_item : Option Item → List Item × Resubscriber → List Item × Resubscriber
with_item none out = out
with_item (some i) (is, r) = (i ∷ is, r)

-- The items of a run, and the state after it. Nothing comes once it is done.
unfoldable pub run : List Answer → Resubscriber → List Item × Resubscriber
unfolding turn
run [] r = ([], r)
run (a ∷ as') r =
    let rest = run as' (turn a r).1 in if r.done then ([], r) else with_item (turn a r).0 rest
