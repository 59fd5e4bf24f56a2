-- ===== src/Core/Logs/Fuel.antt =====
-- The fuel of `walk`, the loop of `assign_logs_recursive` in crates/core/src/log_messages.rs.
use Prim.Native.String.{String}
use shipstern.Base.{
  ℕ, zero, suc, ◌+◌, ◌-◌, ◌≤◌, ◌<◌, ◌≡◌, none, some, true, false, List, [], ◌∷◌, inl, inr, arith,
  ◌==◌, length, Bool-cases,
}
use shipstern.Core.Lines.{invoke, close, other}
use shipstern.Core.Logs.{
  Head, instruction, Instructions, none_left, and_then, kind_at, line_at, walk,
}
use shipstern.Core.Logs.Nesting.{kind-cases}

kind_at-none : (logs : List String) (pos : ℕ) → kind_at logs pos ≡ none → length logs ≤ pos
unfolding kind_at line_at
kind_at-none [] pos h = omega arith
kind_at-none (l ∷ ls) zero h = cc
kind_at-none (l ∷ ls) (suc pos) h = let ih = kind_at-none ls pos h in omega arith

walk_onward :
    (n : ℕ) (logs : List String) (depth pos : ℕ) (ixs : Instructions)
    → pos ≤ (walk n logs depth pos ixs).0
unfolding walk
walk_onward zero logs depth pos ixs = omega arith
walk_onward (suc n) logs depth pos none_left = elim (kind-cases (kind_at logs pos)) [
  | inl e ↦ rw (e, walk) (omega arith)
  | inr (inl e) ↦
      let ih = walk_onward n logs (depth + 1) (pos + 1) none_left in rw (e, walk) (omega arith)
  | inr (inr (inl e)) ↦
      let ih = walk_onward n logs (depth - 1) (pos + 1) none_left in
      elim (Bool-cases (depth == 1)) [
        | inl d ↦ rw (e, d, walk) (omega arith)
        | inr d ↦ rw (e, d, walk) (omega arith)
      ]
  | inr (inr (inr e)) ↦
      let ih = walk_onward n logs depth (pos + 1) none_left in rw (e, walk) (omega arith)
]
walk_onward (suc n) logs depth pos (and_then (instruction p s t inner) rest) =
    let ixs = and_then (instruction p s t inner) rest in
    elim (kind-cases (kind_at logs pos)) [
      | inl e ↦ rw (e, walk) (omega arith)
      | inr (inl e) ↦
          let own = walk_onward n logs 1 (pos + 1) inner in
          let after = walk_onward n logs depth (walk n logs 1 (pos + 1) inner).0 rest in
          rw (e, walk) (omega arith)
      | inr (inr (inl e)) ↦
          let ih = walk_onward n logs (depth - 1) (pos + 1) ixs in
          elim (Bool-cases (depth == 1)) [
            | inl d ↦ rw (e, d, walk) (omega arith)
            | inr d ↦ rw (e, d, walk) (omega arith)
          ]
      | inr (inr (inr e)) ↦
          let ih = walk_onward n logs depth (pos + 1) ixs in rw (e, walk) (omega arith)
    ]

-- The loop without fuel, by its own tests: the walk from a line at a depth, with the instructions
-- whose invoke lines are still to come, ends at a line and with their ranges.
pub data Walks (logs : List String) : ℕ → ℕ → Instructions → ℕ × Instructions → Type 0 where
  past :
      (depth pos : ℕ) (ixs : Instructions) → length logs ≤ pos → Walks logs depth pos ixs (pos, ixs)
  deeper :
      (depth pos : ℕ) (w : ℕ × Instructions)
      → kind_at logs pos ≡ some invoke
      → Walks logs (depth + 1) (pos + 1) none_left w
      → Walks logs depth pos none_left w
  nested :
      (depth pos : ℕ) (h : Head) (s t : ℕ) (inner rest : Instructions)
      (own after : ℕ × Instructions)
      → kind_at logs pos ≡ some invoke
      → Walks logs 1 (pos + 1) inner own
      → Walks logs depth own.0 rest after
      → Walks logs depth pos
          (and_then (instruction h s t inner) rest)
          (after.0, and_then (instruction h pos own.0 own.1) after.1)
  matched :
      (depth pos : ℕ) (ixs : Instructions)
      → kind_at logs pos ≡ some close
      → depth ≡ 1
      → Walks logs depth pos ixs (pos + 1, ixs)
  shallower :
      (depth pos : ℕ) (ixs : Instructions) (w : ℕ × Instructions)
      → kind_at logs pos ≡ some close
      → (depth == 1) ≡ false
      → Walks logs (depth - 1) (pos + 1) ixs w
      → Walks logs depth pos ixs w
  skipped :
      (depth pos : ℕ) (ixs : Instructions) (w : ℕ × Instructions)
      → kind_at logs pos ≡ some other
      → Walks logs depth (pos + 1) ixs w
      → Walks logs depth pos ixs w

-- What is not the call of the next instruction.
shared :
    (n : ℕ) (logs : List String) (depth pos : ℕ) (ixs : Instructions)
    → ((d : ℕ) → Walks logs d (pos + 1) ixs (walk n logs d (pos + 1) ixs))
    → (kind_at logs pos ≡ none → Walks logs depth pos ixs (pos, ixs))
      × (kind_at logs pos ≡ some close
          → Walks logs depth pos ixs (elim (depth == 1) [
            | true ↦ (pos + 1, ixs)
            | false ↦ walk n logs (depth - 1) (pos + 1) ixs
          ]))
      × (kind_at logs pos ≡ some other → Walks logs depth pos ixs (walk n logs depth (pos + 1) ixs))
shared n logs depth pos ixs go = (
  λ e. past depth pos ixs (kind_at-none logs pos e),
  λ e. elim (Bool-cases (depth == 1)) [
    | inl d ↦ rw d (matched depth pos ixs e (one d))
    | inr d ↦ rw d (shallower depth pos ixs _ e d (go (depth - 1)))
  ],
  λ e. skipped depth pos ixs _ e (go depth),
)
  where
    one : (depth == 1) ≡ true → depth ≡ 1
    one d = ground arith

-- With more fuel than there are lines left, the walk follows the loop to an end of its own: past the
-- last line or at the matching close. So the loop terminates, with that result.
pub walk-Walks :
    (n : ℕ) (logs : List String) (depth pos : ℕ) (ixs : Instructions)
    → length logs < pos + n
    → Walks logs depth pos ixs (walk n logs depth pos ixs)
unfolding walk
walk-Walks zero logs depth pos ixs h = past depth pos ixs (omega arith)
walk-Walks (suc n) logs depth pos none_left h =
    let by =
      shared n logs depth pos none_left
        (λ d. walk-Walks n logs d (pos + 1) none_left (omega arith)) in
    elim (kind-cases (kind_at logs pos)) [
      | inl e ↦ rw (e, walk) (by.0 e)
      | inr (inl e) ↦
          rw (e, walk)
            (deeper depth pos _ e (walk-Walks n logs (depth + 1) (pos + 1) none_left (omega arith)))
      | inr (inr (inl e)) ↦ rw (e, walk) (by.1 e)
      | inr (inr (inr e)) ↦ rw (e, walk) (by.2 e)
    ]
walk-Walks (suc n) logs depth pos (and_then (instruction p s t inner) rest) h =
    let ixs = and_then (instruction p s t inner) rest in
    let by = shared n logs depth pos ixs (λ d. walk-Walks n logs d (pos + 1) ixs (omega arith)) in
    elim (kind-cases (kind_at logs pos)) [
      | inl e ↦ rw (e, walk) (by.0 e)
      | inr (inl e) ↦
          let onward = walk_onward n logs 1 (pos + 1) inner in
          rw (e, walk)
            (nested depth pos p s t inner rest _ _ e
              (walk-Walks n logs 1 (pos + 1) inner (omega arith))
              (walk-Walks n logs depth (walk n logs 1 (pos + 1) inner).0 rest (omega arith)))
      | inr (inr (inl e)) ↦ rw (e, walk) (by.1 e)
      | inr (inr (inr e)) ↦ rw (e, walk) (by.2 e)
    ]
