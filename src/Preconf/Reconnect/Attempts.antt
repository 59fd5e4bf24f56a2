-- ===== src/Preconf/Reconnect/Attempts.antt =====
-- How often crates/preconf-source/src/reconnect.rs subscribes again, and how a run ends.
use shipstern.Base.{
  ℕ, ◌+◌, ◌-◌, ◌^◌, ◌≤◌, ◌<◌, ◌≡◌, refl, true, false, ◌&&◌, Option, none, some, List, [], ◌∷◌,
  arith, leb, All, length, under_if, sym, subst,
}
use shipstern.Preconf.Framer.{is_progress}
use shipstern.Preconf.Reconnect.{
  Code, Policy, retries, Yield, yielded, failed_with, finished, Answer, Item, item_error,
  Resubscriber, stable, saturating_inc32, settle, schedule, fail, take_yield, resubscribe, turn,
  with_item, run,
}

-- The attempts in a row stay within the limit of the policy.
abbrev pub Within : ℕ → Resubscriber → Type 0
Within limit r = (r.policy.max_retries ≡ some limit) × (r.attempt ≤ limit)

retries_within :
    (limit n : ℕ) (p : Policy) (code : Option Code)
    → p.max_retries ≡ some limit
    → retries p n code ≡ true
    → n ≤ limit
unfolding retries
retries_within limit n p code e h = ground arith

schedule-Within :
    (limit : ℕ) (code : Option Code) (r : Resubscriber)
    → Within limit r
    → Within limit (schedule code r).1
unfolding schedule retries
schedule-Within limit code r w =
    under_if (λ (x : Option Item × Resubscriber). Within limit x.1)
      (retries r.policy (saturating_inc32 r.attempt) code) _ _
      (λ h. (w.0, retries_within limit (saturating_inc32 r.attempt) r.policy code w.0 h)) (λ h. w)

fail-Within :
    (limit elapsed : ℕ) (code : Option Code) (r : Resubscriber)
    → Within limit r
    → Within limit (fail elapsed code r).1
unfolding fail settle
fail-Within limit elapsed code r w = schedule-Within limit code (settle elapsed r) (
  w.0,
  under_if (λ n. n ≤ limit) (r.has_stream && leb stable elapsed) _ _ (λ h. omega arith) (λ h. w.1),
)

take_yield-Within :
    (limit elapsed : ℕ) (y : Yield) (r : Resubscriber)
    → Within limit r
    → Within limit (take_yield y elapsed r).1
unfolding take_yield
take_yield-Within limit elapsed (yielded u) r w =
    (w.0, under_if (λ n. n ≤ limit) (is_progress u) _ _ (λ h. omega arith) (λ h. w.1))
take_yield-Within limit elapsed (failed_with code) r w = fail-Within limit elapsed (some code) r w
take_yield-Within limit elapsed finished r w = fail-Within limit elapsed none r w

resubscribe-Within :
    (limit elapsed : ℕ) (s : Option Code) (r : Resubscriber)
    → Within limit r
    → Within limit (resubscribe s elapsed r).1
unfolding resubscribe
resubscribe-Within limit elapsed none r w = w
resubscribe-Within limit elapsed (some code) r w = fail-Within limit elapsed (some code) r w

turn-Within :
    (limit : ℕ) (a : Answer) (r : Resubscriber) → Within limit r → Within limit (turn a r).1
unfolding turn
turn-Within limit a r w =
    under_if (λ (x : Option Item × Resubscriber). Within limit x.1) r.has_stream _ _
      (λ h. take_yield-Within limit a.elapsed a.stream_next r w)
      (λ h. resubscribe-Within limit a.elapsed a.subscribe r w)

with_item-state : (i : Option Item) (out : List Item × Resubscriber) → (with_item i out).1 ≡ out.1
with_item-state none out = refl
with_item-state (some i) out = refl

-- Whatever the streams and the server answer, attempts in a row that are within the limit of the
-- policy stay within it.
pub run-Within :
    (limit : ℕ) (answers : List Answer) (r : Resubscriber)
    → Within limit r
    → Within limit (run answers r).1
unfolding run
run-Within limit [] r w = w
run-Within limit (a ∷ answers) r w =
    under_if (λ (x : List Item × Resubscriber). Within limit x.1) r.done _ _ (λ h. w)
      (λ h.
        subst (Within limit) (sym (with_item-state (turn a r).0 (run answers (turn a r).1)))
          (run-Within limit answers (turn a r).1 (turn-Within limit a r w)))

-- The server refuses, whatever else happens.
abbrev pub Refuses : Code → Answer → Type 0
Refuses code a = a.subscribe ≡ some code

-- A resubscriber that has lost its stream, after so many attempts.
abbrev pub waiting : Policy → ℕ → Resubscriber
waiting p n = record { has_stream = false; policy = p; attempt = n; done = false }

-- The refusal is the only item, and the last.
abbrev pub GivenUp : Code → List Item × Resubscriber → Type 0
GivenUp code (is, r) = (is ≡ item_error code ∷ []) × (r.done ≡ true)

run_done :
    (answers : List Answer) (p : Policy) (n : ℕ)
    → run answers (record (waiting p n) { done = true })
      ≡ ([], record (waiting p n) { done = true })
unfolding run
run_done [] p n = refl
run_done (a ∷ answers) p n = refl

turn_refused :
    (code : Code) (a : Answer) (p : Policy) (n : ℕ)
    → Refuses code a
    → turn a (waiting p n) ≡ schedule (some code) (waiting p n)
unfolding turn resubscribe fail settle
turn_refused code a p n h = rw (h, resubscribe)

-- With a limit below 2 ^ 32 - 1, a server that refuses each subscribe, with one code, is given up:
-- with as many answers as there are attempts left under the limit, and one more, the run has ended,
-- with the refusal as its only item.
pub run_gives_up :
    (limit : ℕ) (code : Code) (p : Policy) (answers : List Answer) (n : ℕ)
    → p.max_retries ≡ some limit
    → n ≤ limit
    → limit < 2 ^ 32 - 1
    → All (Refuses code) answers
    → limit < n + length answers
    → GivenUp code (run answers (waiting p n))
unfolding run schedule
run_gives_up limit code p [] n bound within small refuse enough = absurd (omega arith)
run_gives_up limit code p (a ∷ answers) n bound within small refuse enough =
    rw (turn_refused code a p n refuse.0) (
      under_if (λ (x : Option Item × Resubscriber). GivenUp code (with_item x.0 (run answers x.1)))
        (retries p (saturating_inc32 n) (some code)) _ _
        (λ h.
          let next : saturating_inc32 n ≡ n + 1 = omega arith in
          subst (λ k. GivenUp code (run answers (waiting p k))) (sym next)
            (run_gives_up limit code p answers (n + 1) bound
              (let w = retries_within limit (saturating_inc32 n) p (some code) bound h in
                omega arith)
              small refuse.1 (omega arith)))
        (λ h. rw (run_done answers p n) (refl, refl)))
