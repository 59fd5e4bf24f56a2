-- ===== src/Core/Logs/Nesting.antt =====
-- The ranges that crates/core/src/log_messages.rs assigns: how they lie in the log.
use Prim.Native.String.{String}
use shipstern.Base.{
  ℕ, zero, suc, ◌+◌, ◌-◌, ◌≤◌, ◌<◌, ◌≡◌, refl, ◌&&◌, Option, none, some, List, [], ◌∷◌, ◌⊎◌, inl,
  inr, arith, leb, ◌==◌, length, Bool-cases, Option-cases,
}
use shipstern.Core.Lines.{LogLineKind, invoke, close, other, is_outer_invoke}
use shipstern.Core.Logs.{
  Pubkey, InstructionUpdate, instruction, Instructions, none_left, and_then, line_at, kind_at, walk,
  find_outer_from, names_program, assign_from, assign_log_messages,
}

abbrev end_of : InstructionUpdate → ℕ
end_of (instruction p s e inner) = e

unfoldable mutual
  -- No range is assigned yet.
  pub Untouched : Instructions → Type 0
  Untouched none_left = Unit
  Untouched (and_then ix rest) = UntouchedOne ix × Untouched rest

  pub UntouchedOne : InstructionUpdate → Type 0
  UntouchedOne (instruction p s e inner) = (s ≡ 0) × (e ≡ 0) × Untouched inner

unfoldable mutual
  unfolding Untouched

  -- The ranges lie between two lines, each begins where the one before has ended or later, and
  -- the inner ones lie past the first line of their own.
  pub Fits : ℕ → ℕ → Instructions → Type 0
  Fits lo hi none_left = Unit
  Fits lo hi (and_then ix rest) =
      (UntouchedOne ix × Fits lo hi rest) ⊎ (FitsOne lo hi ix × Fits (end_of ix) hi rest)

  pub FitsOne : ℕ → ℕ → InstructionUpdate → Type 0
  FitsOne lo hi (instruction p s e inner) = (lo ≤ s) × (s < e) × (e ≤ hi) × Fits (s + 1) e inner

Untouched-Fits : (lo hi : ℕ) (ixs : Instructions) → Untouched ixs → Fits lo hi ixs
unfolding Untouched Fits
Untouched-Fits lo hi none_left u = tt
Untouched-Fits lo hi (and_then ix rest) u = inl (u.0, Untouched-Fits lo hi rest u.1)

Fits-lower : (k lo hi : ℕ) (ixs : Instructions) → k ≤ lo → Fits lo hi ixs → Fits k hi ixs
unfolding Fits
Fits-lower k lo hi none_left h f = tt
Fits-lower k lo hi (and_then ix rest) h (inl (u, f)) = inl (u, Fits-lower k lo hi rest h f)
Fits-lower k lo hi (and_then (instruction p s e inner) rest) h (inr (o, f)) =
    inr ((omega arith, o.1, o.2, o.3), f)

line_at-lt :
    (logs : List String) (pos : ℕ) (l : String) → line_at logs pos ≡ some l → pos < length logs
unfolding line_at
line_at-lt [] pos l e = absurd (ground arith)
line_at-lt (x ∷ logs) zero l e = omega arith
line_at-lt (x ∷ logs) (suc pos) l e = let h = line_at-lt logs pos l e in omega arith

pub kind_at-lt :
    (logs : List String) (pos : ℕ) (k : LogLineKind) → kind_at logs pos ≡ some k → pos < length logs
unfolding kind_at
kind_at-lt logs pos k e = elim (Option-cases (line_at logs pos)) [
  | inl n ↦ absurd (ground arith)
  | inr (l, i) ↦ line_at-lt logs pos l i
]

-- One line: none is left, or it invokes, closes, or is another.
pub kind-cases :
    (o : Option LogLineKind)
    → (o ≡ none) ⊎ ((o ≡ some invoke) ⊎ ((o ≡ some close) ⊎ (o ≡ some other)))
kind-cases none = inl refl
kind-cases (some invoke) = inr (inl refl)
kind-cases (some close) = inr (inr (inl refl))
kind-cases (some other) = inr (inr (inr refl))

-- A walk that ends at a line of the log, and the ranges that it has assigned.
abbrev pub Walked : List String → ℕ → ℕ × Instructions → Type 0
Walked logs pos (e, ixs) = (pos ≤ e) × (e ≤ length logs) × Fits pos e ixs

Walked-lower :
    (logs : List String) (pos : ℕ) (r : ℕ × Instructions)
    → Walked logs (pos + 1) r
    → Walked logs pos r
Walked-lower logs pos (e, ixs) w =
    (omega arith, w.1, Fits-lower pos (pos + 1) e ixs (omega arith) w.2)

walk-Walked :
    (n : ℕ) (logs : List String) (depth pos : ℕ) (ixs : Instructions)
    → pos ≤ length logs
    → Untouched ixs
    → Walked logs pos (walk n logs depth pos ixs)
unfolding walk Untouched Fits
walk-Walked zero logs depth pos ixs h u = (omega arith, h, Untouched-Fits pos pos ixs u)
walk-Walked (suc n) logs depth pos none_left h u = elim (kind-cases (kind_at logs pos)) [
  | inl e ↦ rw (e, walk) (omega arith, h, Untouched-Fits pos pos none_left u)
  | inr (inl e) ↦
      let lt = kind_at-lt logs pos invoke e in
      let ih = walk-Walked n logs (depth + 1) (pos + 1) none_left (omega arith) u in
      rw (e, walk) (Walked-lower logs pos (walk n logs (depth + 1) (pos + 1) none_left) ih)
  | inr (inr (inl e)) ↦
      let lt = kind_at-lt logs pos close e in
      let ih = walk-Walked n logs (depth - 1) (pos + 1) none_left (omega arith) u in
      elim (Bool-cases (depth == 1)) [
        | inl d ↦ rw (e, d, walk) (omega arith, omega arith, tt)
        | inr d ↦
            rw (e, d, walk) (Walked-lower logs pos (walk n logs (depth - 1) (pos + 1) none_left) ih)
      ]
  | inr (inr (inr e)) ↦
      let lt = kind_at-lt logs pos other e in
      let ih = walk-Walked n logs depth (pos + 1) none_left (omega arith) u in
      rw (e, walk) (Walked-lower logs pos (walk n logs depth (pos + 1) none_left) ih)
]
walk-Walked (suc n) logs depth pos (and_then (instruction p s t inner) rest) h u =
    let ixs = and_then (instruction p s t inner) rest in
    elim (kind-cases (kind_at logs pos)) [
      | inl e ↦ rw (e, walk) (omega arith, h, Untouched-Fits pos pos ixs u)
      | inr (inl e) ↦
          let lt = kind_at-lt logs pos invoke e in
          let own = walk-Walked n logs 1 (pos + 1) inner (omega arith) u.0.2 in
          let after = walk-Walked n logs depth (walk n logs 1 (pos + 1) inner).0 rest own.1 u.1 in
          rw (e, walk)
            (
              omega (arith, own.0, after.0),
              after.1,
              inr ((omega arith, omega (arith, own.0), after.0, own.2), after.2),
            )
      | inr (inr (inl e)) ↦
          let lt = kind_at-lt logs pos close e in
          let ih = walk-Walked n logs (depth - 1) (pos + 1) ixs (omega arith) u in
          elim (Bool-cases (depth == 1)) [
            | inl d ↦ rw (e, d, walk) (omega arith, omega arith, Untouched-Fits pos (pos + 1) ixs u)
            | inr d ↦
                rw (e, d, walk) (Walked-lower logs pos (walk n logs (depth - 1) (pos + 1) ixs) ih)
          ]
      | inr (inr (inr e)) ↦
          let lt = kind_at-lt logs pos other e in
          let ih = walk-Walked n logs depth (pos + 1) ixs (omega arith) u in
          rw (e, walk) (Walked-lower logs pos (walk n logs depth (pos + 1) ixs) ih)
    ]

find_outer-bounds :
    (ls : List String) (i cursor pos : ℕ)
    → find_outer_from ls i cursor ≡ some pos
    → (cursor ≤ pos) × (pos < i + length ls)
unfolding find_outer_from
find_outer-bounds [] i cursor pos e = absurd (ground arith)
find_outer-bounds (l ∷ ls) i cursor pos e = elim (Bool-cases (leb cursor i && is_outer_invoke l)) [
  | inl b ↦ ground arith
  | inr b ↦
      let ih = find_outer-bounds ls (i + 1) cursor pos (ground arith) in (ih.0, omega (arith, ih.1))
]

module _ (parse_pubkey : String → Option Pubkey) where
  assign_from-Fits :
      (logs : List String) (cursor : ℕ) (ixs : Instructions)
      → cursor ≤ length logs
      → Untouched ixs
      → Fits cursor (length logs) (assign_from parse_pubkey logs cursor ixs)
  unfolding assign_from Untouched Fits
  assign_from-Fits logs cursor none_left h u = tt
  assign_from-Fits logs cursor (and_then (instruction p s t inner) rest) h u =
      elim (Option-cases (find_outer_from logs 0 cursor)) [
        | inl e ↦
            rw (e, assign_from)
              (Untouched-Fits cursor (length logs) (and_then (instruction p s t inner) rest) u)
        | inr (pos, e) ↦
            let b = find_outer-bounds logs 0 cursor pos e in
            elim (Bool-cases (names_program parse_pubkey logs pos p.program)) [
              | inr n ↦ rw (e, n, assign_from) (inl (u.0, assign_from-Fits logs cursor rest h u.1))
              | inl y ↦
                  let own =
                    walk-Walked (length logs) logs 1 (pos + 1) inner (omega (arith, b.1)) u.0.2 in
                  rw (e, y, assign_from)
                    (inr (
                      (b.0, omega (arith, own.0), own.1, own.2),
                      assign_from-Fits logs (walk (length logs) logs 1 (pos + 1) inner).0 rest own.1
                          u.1,
                    ))
            ]
      ]

  -- From instructions with no range yet, every range that is assigned lies within the log, so that
  -- no slice of it can panic. The ranges of siblings are disjoint and in order, and those of inner
  -- instructions lie inside that of the outer one, past its first line.
  pub assign_log_messages-Fits :
      (logs : List String) (outer : Instructions)
      → Untouched outer
      → Fits 0 (length logs) (assign_log_messages parse_pubkey logs outer)
  unfolding assign_log_messages
  assign_log_messages-Fits [] outer u = Untouched-Fits 0 0 outer u
  assign_log_messages-Fits (l ∷ ls) outer u = assign_from-Fits (l ∷ ls) 0 outer (omega arith) u
