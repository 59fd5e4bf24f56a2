-- ===== src/Core/Paths.antt =====
-- The paths of instructions, crates/core/src/instruction.rs. The index at a level, a u32 in the
-- source, counts instructions of one transaction, so its wrap-around is left out.
pub mod Ancestry
pub mod Ordered
use Prim.Native.Nat.{compare, Ordering}
use shipstern.Base.{
  ℕ, zero, suc, ◌+◌, ◌≤◌, ◌<◌, ◌≡◌, refl, Bool, true, false, ◌&&◌, Option, none, some, List, [],
  ◌∷◌, ◌++◌, arith, ltb, leb, ◌==◌, length, if◌then◌else◌, All,
}
use shipstern.BlockCoordinator.Keys.{lex}

unfoldable pub push_clone : List ℕ → ℕ → List ℕ
push_clone path idx = path ++ idx ∷ []

-- `other[..k] == self[..k]` with k the length of `self`.
unfoldable pub same_prefix : List ℕ → List ℕ → Bool
same_prefix [] other = true
same_prefix (a ∷ as') [] = false
same_prefix (a ∷ as') (b ∷ bs) = (a == b) && same_prefix as' bs

unfoldable pub is_parent_of : List ℕ → List ℕ → Bool
unfolding same_prefix
is_parent_of path other = if length path + 1 == length other then same_prefix path other else false

unfoldable pub is_ancestor_of : List ℕ → List ℕ → Bool
unfolding same_prefix
is_ancestor_of path other =
    if leb (length other) (length path) then false else same_prefix path other

-- `*last += 1` on the last index, if there is one.
unfoldable pub bump_last : List ℕ → List ℕ
bump_last [] = []
bump_last (x ∷ []) = (x + 1) ∷ []
bump_last (x ∷ y ∷ rest) = x ∷ bump_last (y ∷ rest)

unfoldable pub truncate : ℕ → List ℕ → List ℕ
truncate zero path = []
truncate (suc k) [] = []
truncate (suc k) (x ∷ path) = x ∷ truncate k path

-- The path stack for the next instruction, from the stack heights of the last one and of it.
unfoldable pub next_stack : Option ℕ → Option ℕ → List ℕ → List ℕ
unfolding bump_last truncate
next_stack (some prev) (some current) stack = elim (compare current prev) [
  | Ordering.gt ↦ stack ++ 0 ∷ []
  | Ordering.eq ↦ bump_last stack
  | Ordering.lt ↦ bump_last (truncate current stack)
]
next_stack _ _ stack = bump_last stack

unfoldable pub derive_from : Option ℕ → List ℕ → List (Option ℕ) → List (List ℕ)
unfolding next_stack
derive_from prev stack [] = []
derive_from prev stack (h ∷ hs) = let next = next_stack prev h stack in next ∷ derive_from h next hs

unfoldable pub derive_paths_from_stackheights : List (Option ℕ) → ℕ → List (List ℕ)
unfolding derive_from
derive_paths_from_stackheights [] outer_index = []
derive_paths_from_stackheights (h ∷ hs) outer_index =
    (outer_index ∷ 0 ∷ []) ∷ derive_from h (outer_index ∷ 0 ∷ []) hs
