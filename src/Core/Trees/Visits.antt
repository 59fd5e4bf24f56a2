-- ===== src/Core/Trees/Visits.antt =====
-- The iterators over an instruction and its inner instructions, crates/core/src/instruction.rs, as the
-- list of what they give.
use shipstern.Base.{
  ℕ, zero, suc, ◌+◌, ◌≤◌, ◌≡◌, refl, sym, ap, ◌∙◌, Option, none, some, List, [], ◌∷◌, ◌++◌, arith,
}
use mathlib.Core.List.{append_assoc, append-nil}
use shipstern.Core.Logs.{Head, InstructionUpdate, instruction, Instructions, none_left, and_then}

abbrev pub inner_of : InstructionUpdate → Instructions
inner_of (instruction head start end_ inner) = inner

abbrev pub head_of : InstructionUpdate → Head
head_of (instruction head start end_ inner) = head

-- `VisitAll::next` after the first call: the stack of what is left of each open list, innermost first.
unfoldable pub next : List Instructions → Option (InstructionUpdate × List Instructions)
next [] = none
next (none_left ∷ stack) = next stack
next (and_then ix rest ∷ stack) = some (ix, inner_of ix ∷ rest ∷ stack)

-- What is collected from the iterator, with fuel for its items.
unfoldable pub visit_from : ℕ → List Instructions → List InstructionUpdate
unfolding next
visit_from zero stack = []
visit_from (suc fuel) stack = elim (next stack) [
  | none ↦ []
  | some item ↦ item.0 ∷ visit_from fuel item.1
]

-- How many instructions there are.
unfoldable mutual
  pub size : Instructions → ℕ
  size none_left = 0
  size (and_then ix rest) = size_of ix + size rest

  pub size_of : InstructionUpdate → ℕ
  size_of (instruction head start end_ inner) = suc (size inner)

unfoldable pub visit_all : InstructionUpdate → List InstructionUpdate
unfolding visit_from size
visit_all ix = ix ∷ visit_from (size (inner_of ix)) (inner_of ix ∷ [])

-- An instruction before the instructions that it calls, and these in their order.
unfoldable mutual
  pub preorder : InstructionUpdate → List InstructionUpdate
  preorder (instruction head start end_ inner) = instruction head start end_ inner ∷ preorders inner

  pub preorders : Instructions → List InstructionUpdate
  preorders none_left = []
  preorders (and_then ix rest) = preorder ix ++ preorders rest

abbrev left : List Instructions → List InstructionUpdate
left [] = []
left (is ∷ stack) = preorders is ++ left stack

abbrev sizes : List Instructions → ℕ
sizes [] = 0
sizes (is ∷ stack) = size is + sizes stack

abbrev Follows : List Instructions → Option (InstructionUpdate × List Instructions) → Type 0
Follows stack none = left stack ≡ []
Follows stack (some (ix, stack')) =
    (left stack ≡ ix ∷ left stack') × (sizes stack ≡ suc (sizes stack'))

next_lem : (stack : List Instructions) → Follows stack (next stack)
unfolding next preorders size
next_lem [] = refl
next_lem (none_left ∷ stack) = same_left stack (next stack) (next_lem stack)
  where
    same_left :
        (stack : List Instructions) (o : Option (InstructionUpdate × List Instructions))
        → Follows stack o
        → Follows (none_left ∷ stack) o
    same_left stack none h = h
    same_left stack (some item) h = (h.0, omega (arith, h.1))
next_lem (and_then (instruction head start end_ inner) rest ∷ stack) = (
  ap (◌∷◌ (instruction head start end_ inner))
      (append_assoc (preorders inner) (preorders rest) (left stack)),
  omega arith,
)

visit_from-left :
    (fuel : ℕ) (stack : List Instructions) (o : Option (InstructionUpdate × List Instructions))
    → next stack ≡ o
    → Follows stack o
    → sizes stack ≤ fuel
    → visit_from fuel stack ≡ left stack
unfolding visit_from
visit_from-left zero stack none e h k = sym h
visit_from-left zero stack (some item) e h k = absurd (no_fuel h.1)
  where
    no_fuel : sizes stack ≡ suc (sizes item.1) → ⊥
    no_fuel s = omega arith
visit_from-left (suc fuel) stack none e h k = rw (e, visit_from) (sym h)
visit_from-left (suc fuel) stack (some item) e h k =
    rw (e, visit_from)
      (ap (◌∷◌ item.0)
          (visit_from-left fuel item.1 (next item.1) refl (next_lem item.1) (omega (arith, h.1)))
        ∙ sym h.0)

-- The iterator gives an instruction and all that it calls in preorder, each once, and any more fuel gives
-- the same.
pub visit_all-preorder :
    (ix : InstructionUpdate) (fuel : ℕ)
    → size (inner_of ix) ≤ fuel
    → (visit_all ix ≡ preorder ix)
      × (visit_from fuel (inner_of ix ∷ []) ≡ visit_from (size (inner_of ix)) (inner_of ix ∷ []))
unfolding visit_all preorder
visit_all-preorder (instruction head start end_ inner) fuel k =
    let stack = inner ∷ [] in
    let enough =
      visit_from-left (size inner) stack (next stack) refl (next_lem stack) (omega arith) in
    (
      ap (◌∷◌ (instruction head start end_ inner)) (enough ∙ append-nil (preorders inner)),
      visit_from-left fuel stack (next stack) refl (next_lem stack) (omega arith) ∙ sym enough,
    )
