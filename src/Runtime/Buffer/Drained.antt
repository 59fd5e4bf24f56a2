-- ===== src/Runtime/Buffer/Drained.antt =====
-- The permits and the jobs of the buffer loop, crates/runtime/src/buffer.rs, over every run.
use shipstern.Base.{
  ℕ, ◌+◌, ◌≤◌, ◌≡◌, refl, sym, ap, subst, Bool, true, false, Option, none, some, [], ◌∷◌, arith,
  length, length-append, Bool-cases, inl, inr,
}
use shipstern.Runtime.Buffer.{
  State, Ending, closed, failed, stopped, start, drains, Step, acquire, enqueue, end, abort,
  give_up, spawn, discard, finish, Reach, here, next, IsAccounted,
}

not_ended : {o : Option Ending} {e : Ending} → o ≡ none → o ≡ some e → ⊥
not_ended h k = cc

clash : {b : Bool} → b ≡ true → b ≡ false → ⊥
clash h k = cc

IsAccounted-Step : {jobs : ℕ} {s t : State} → IsAccounted jobs s → Step s t → IsAccounted jobs t
IsAccounted-Step {jobs} {s} v (acquire n e h f u) = subst (IsAccounted jobs) (sym u) (record {
  permits = omega (arith, v.permits);
  places = v.places;
  calm = v.calm;
  settled = λ x k. absurd (not_ended e k);
  cause = v.cause;
})
IsAccounted-Step {jobs} {s} v (enqueue e h u) = subst (IsAccounted jobs) (sym u) (record {
  permits = omega (arith, v.permits, length-append s.queued (s.received ∷ []));
  places = omega (arith, v.places, length-append s.queued (s.received ∷ []));
  calm = v.calm;
  settled = λ x k. refl;
  cause = v.cause;
})
IsAccounted-Step {jobs} {s} v (end x e h u) = subst (IsAccounted jobs) (sym u) (record {
  permits = v.permits;
  places = v.places;
  calm = v.calm;
  settled = λ y k. h;
  cause = λ a. absurd (not_ended e (v.cause a).1);
})
IsAccounted-Step {jobs} {s} v (abort x e d u) = subst (IsAccounted jobs) (sym u) (record {
  permits = v.permits;
  places = v.places;
  calm = λ a. cc;
  settled = v.settled;
  cause = λ a. (x, e, d);
})
IsAccounted-Step {jobs} {s} v (give_up x e u) = subst (IsAccounted jobs) (sym u) (record {
  permits = v.permits;
  places = v.places;
  calm = v.calm;
  settled = v.settled;
  cause = v.cause;
})
IsAccounted-Step {jobs} {s} v (spawn j rest q a u) = subst (IsAccounted jobs) (sym u) (record {
  permits = omega (arith, v.permits, ap length q);
  places = omega (arith, v.places, ap length q);
  calm = v.calm;
  settled = v.settled;
  cause = v.cause;
})
IsAccounted-Step {jobs} {s} v (discard j rest q a u) = subst (IsAccounted jobs) (sym u) (record {
  permits = omega (arith, v.permits, ap length q);
  places = omega (arith, v.places, ap length q);
  calm = λ b. absurd (clash a b);
  settled = v.settled;
  cause = v.cause;
})
IsAccounted-Step {jobs} {s} v (finish before after j r u) =
    subst (IsAccounted jobs) (sym u) (record {
      permits = omega (
        arith,
        v.permits,
        ap length r,
        length-append before after,
        length-append before (j ∷ after),
      );
      places = omega (
        arith,
        v.places,
        ap length r,
        length-append before after,
        length-append before (j ∷ after),
      );
      calm = v.calm;
      settled = v.settled;
      cause = v.cause;
    })

IsAccounted-Reach : {jobs : ℕ} {s t : State} → IsAccounted jobs s → Reach s t → IsAccounted jobs t
IsAccounted-Reach v here = v
IsAccounted-Reach v (next r step) = IsAccounted-Step (IsAccounted-Reach v r) step

pub start-IsAccounted : (jobs : ℕ) → IsAccounted jobs (start jobs)
start-IsAccounted jobs = record {
  permits = omega arith;
  places = omega arith;
  calm = λ a. refl;
  settled = λ e h. refl;
  cause = λ a. cc;
}

-- In every run at most as many jobs are running, queued or about to be queued as there are permits.
pub reach-Bounded :
    (jobs : ℕ) (s : State)
    → Reach (start jobs) s
    → s.holding + length s.queued + length s.running ≤ jobs
reach-Bounded jobs s r = omega (arith, (IsAccounted-Reach (start-IsAccounted jobs) r).permits)

not_drained : {o : Option Ending} {e : Ending} → o ≡ some closed → o ≡ some e → drains e ≡ false → ⊥
not_drained {e = closed} h k d = cc
not_drained {e = failed} h k d = cc
not_drained {e = stopped} h k d = cc

-- Once the stream was closed and all permits are free again, every update that was received was handled
-- to its end and none was dropped.
pub closed_loses_none :
    (jobs : ℕ) (s : State)
    → Reach (start jobs) s
    → s.ended ≡ some closed
    → s.free ≡ jobs
    → (length s.finished ≡ s.received) × (length s.dropped ≡ 0)
closed_loses_none jobs s r e f =
    let v = IsAccounted-Reach (start-IsAccounted jobs) r in
    elim (Bool-cases s.aborted) [
      | inl a ↦ let (x, k, d) = v.cause a in absurd (not_drained e k d)
      | inr a ↦ (omega (arith, v.permits, v.places, v.calm a), v.calm a)
    ]
