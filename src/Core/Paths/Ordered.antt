-- ===== src/Core/Paths/Ordered.antt =====
-- The order of the paths that crates/core/src/instruction.rs derives from stack heights.
use Prim.Native.Nat.{compare, Ordering}
use shipstern.Base.{
  ℕ, zero, suc, ◌≤◌, ◌≡◌, refl, true, Option, none, some, List, [], ◌∷◌, ◌++◌, arith, length, All,
}
use shipstern.BlockCoordinator.Keys.{lex, lex_prefix}
use shipstern.Core.Paths.{
  bump_last, truncate, next_stack, derive_from, derive_paths_from_stackheights,
}

abbrev IsNonEmpty : List ℕ → Type 0
IsNonEmpty [] = ⊥
IsNonEmpty (x ∷ xs) = Unit

bump_last-IsNonEmpty : (s : List ℕ) → IsNonEmpty s → IsNonEmpty (bump_last s)
unfolding bump_last
bump_last-IsNonEmpty [] h = h
bump_last-IsNonEmpty (x ∷ []) h = tt
bump_last-IsNonEmpty (x ∷ y ∷ s) h = tt

append-IsNonEmpty : (s : List ℕ) (i : ℕ) → IsNonEmpty (s ++ i ∷ [])
append-IsNonEmpty [] i = tt
append-IsNonEmpty (x ∷ s) i = tt

lex-bump_last : (s : List ℕ) → IsNonEmpty s → lex s (bump_last s) ≡ true
unfolding lex bump_last
lex-bump_last [] h = absurd h
lex-bump_last (x ∷ []) h = ground arith
lex-bump_last (x ∷ y ∷ s) h = ground (arith, lex-bump_last (y ∷ s) tt)

lex-bump_truncate :
    (k : ℕ) (s : List ℕ) → 1 ≤ k → IsNonEmpty s → lex s (bump_last (truncate k s)) ≡ true
unfolding lex bump_last truncate
lex-bump_truncate zero s k h = absurd (omega arith)
lex-bump_truncate (suc k) [] l h = absurd h
lex-bump_truncate (suc zero) (x ∷ s) l h = ground arith
lex-bump_truncate (suc (suc k)) (x ∷ []) l h = ground arith
lex-bump_truncate (suc (suc k)) (x ∷ y ∷ s) l h =
    ground (arith, lex-bump_truncate (suc k) (y ∷ s) (omega arith) tt)

truncate-IsNonEmpty : (k : ℕ) (s : List ℕ) → 1 ≤ k → IsNonEmpty s → IsNonEmpty (truncate k s)
unfolding truncate
truncate-IsNonEmpty zero s l h = absurd (omega arith)
truncate-IsNonEmpty (suc k) [] l h = h
truncate-IsNonEmpty (suc k) (x ∷ s) l h = tt

-- A stack height, where there is one, is at least 1.
abbrev pub IsHeight : Option ℕ → Type 0
IsHeight none = Unit
IsHeight (some h) = 1 ≤ h

-- The next path lies after the last one, and is not empty.
abbrev Later : List ℕ → List ℕ → Type 0
Later s t = (lex s t ≡ true) × IsNonEmpty t

next_stack-Later :
    (prev current : Option ℕ) (s : List ℕ)
    → IsHeight current
    → IsNonEmpty s
    → Later s (next_stack prev current s)
unfolding next_stack
next_stack-Later none current s h n = (lex-bump_last s n, bump_last-IsNonEmpty s n)
next_stack-Later (some p) none s h n = (lex-bump_last s n, bump_last-IsNonEmpty s n)
next_stack-Later (some p) (some c) s h n = by_order (compare c p)
  where
    by_order :
        (o : Ordering)
        → Later s (elim o [
          | Ordering.gt ↦ s ++ 0 ∷ []
          | Ordering.eq ↦ bump_last s
          | Ordering.lt ↦ bump_last (truncate c s)
        ])
    by_order Ordering.gt = (lex_prefix s 0 [], append-IsNonEmpty s 0)
    by_order Ordering.eq = (lex-bump_last s n, bump_last-IsNonEmpty s n)
    by_order Ordering.lt = (
      lex-bump_truncate c s h n,
      bump_last-IsNonEmpty (truncate c s) (truncate-IsNonEmpty c s h n),
    )

-- Each path lies after the one before it.
abbrev pub IsLexAscending : List (List ℕ) → Type 0
IsLexAscending [] = Unit
IsLexAscending (p ∷ []) = Unit
IsLexAscending (p ∷ q ∷ rest) = (lex p q ≡ true) × IsLexAscending (q ∷ rest)

derive_from-IsLexAscending :
    (prev : Option ℕ) (s : List ℕ) (hs : List (Option ℕ))
    → All IsHeight hs
    → IsNonEmpty s
    → IsLexAscending (s ∷ derive_from prev s hs)
unfolding derive_from
derive_from-IsLexAscending prev s [] a n = tt
derive_from-IsLexAscending prev s (h ∷ hs) a n =
    let later = next_stack-Later prev h s a.0 n in
    (later.0, derive_from-IsLexAscending h (next_stack prev h s) hs a.1 later.1)

length-derive_from :
    (prev : Option ℕ) (s : List ℕ) (hs : List (Option ℕ))
    → length (derive_from prev s hs) ≡ length hs
unfolding derive_from
length-derive_from prev s [] = refl
length-derive_from prev s (h ∷ hs) =
    let rest = length-derive_from h (next_stack prev h s) hs in omega arith

-- From stack heights that are at least 1 where they are known, one path is derived for each, and
-- the paths are in strictly ascending lexicographic order, in which the block coordinator sorts
-- its records: so no two instructions share a path.
pub derive_paths-IsLexAscending :
    (heights : List (Option ℕ)) (outer_index : ℕ)
    → All IsHeight heights
    → IsLexAscending (derive_paths_from_stackheights heights outer_index)
      × (length (derive_paths_from_stackheights heights outer_index) ≡ length heights)
unfolding derive_paths_from_stackheights
derive_paths-IsLexAscending [] outer_index a = (tt, refl)
derive_paths-IsLexAscending (h ∷ hs) outer_index a = (
  derive_from-IsLexAscending h (outer_index ∷ 0 ∷ []) hs a.1 tt,
  (let rest = length-derive_from h (outer_index ∷ 0 ∷ []) hs in omega arith),
)
