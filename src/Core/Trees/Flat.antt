-- ===== src/Core/Trees/Flat.antt =====
-- `visit_all_with_flat_indices` of crates/core/src/instruction.rs: the instructions of one outer
-- instruction with their indexes in Solana's flat list.
use shipstern.Base.{
  ℕ, ◌+◌, ◌≡◌, refl, sym, ap, ◌∙◌, subst, true, Option, none, some, List, [], ◌∷◌, arith,
}
use shipstern.BlockCoordinator.Keys.{lex}
use shipstern.Core.Logs.{InstructionUpdate}
use shipstern.Core.Paths.Ordered.{IsLexAscending}
use shipstern.Core.Trees.Visits.{
  head_of, inner_of, visit_from, size, visit_all, preorder, visit_all-preorder,
}

abbrev pub path_of : InstructionUpdate → List ℕ
path_of ix = (head_of ix).path

-- `first().copied()`
abbrev pub first : List ℕ → Option ℕ
first [] = none
first (x ∷ xs) = some x

-- The closure of `map` once the outer instruction is visited, with `next_inner_index`.
unfoldable pub number : Option ℕ → ℕ → List InstructionUpdate → List (InstructionUpdate × List ℕ)
number outer_index n [] = []
number none n (ix ∷ rest) = (ix, path_of ix) ∷ number none n rest
number (some outer_index) n (ix ∷ rest) =
    (ix, outer_index ∷ n ∷ []) ∷ number (some outer_index) (n + 1) rest

unfoldable pub number_visited :
    Option ℕ → List InstructionUpdate → List (InstructionUpdate × List ℕ)
unfolding number
number_visited outer_index [] = []
number_visited outer_index (ix ∷ rest) = (ix, path_of ix) ∷ number outer_index 0 rest

unfoldable pub visit_all_with_flat_indices : InstructionUpdate → List (InstructionUpdate × List ℕ)
unfolding number_visited visit_all
visit_all_with_flat_indices ix = number_visited (first (path_of ix)) (visit_all ix)

abbrev pub visited : List (InstructionUpdate × List ℕ) → List InstructionUpdate
visited [] = []
visited ((ix, path) ∷ rest) = ix ∷ visited rest

abbrev pub paths : List (InstructionUpdate × List ℕ) → List (List ℕ)
paths [] = []
paths ((ix, path) ∷ rest) = path ∷ paths rest

visited-number :
    (o : Option ℕ) (n : ℕ) (ixs : List InstructionUpdate) → visited (number o n ixs) ≡ ixs
unfolding number
visited-number o n [] = refl
visited-number none n (ix ∷ rest) = ap (◌∷◌ ix) (visited-number none n rest)
visited-number (some o) n (ix ∷ rest) = ap (◌∷◌ ix) (visited-number (some o) (n + 1) rest)

next_path : (o n : ℕ) → lex (o ∷ n ∷ []) (o ∷ (n + 1) ∷ []) ≡ true
unfolding lex
next_path o n = ground arith

first_index : (o : ℕ) → lex (o ∷ []) (o ∷ 0 ∷ []) ≡ true
unfolding lex
first_index o = ground arith

number-IsLexAscending :
    (before : List ℕ) (o n : ℕ) (ixs : List InstructionUpdate)
    → lex before (o ∷ n ∷ []) ≡ true
    → IsLexAscending (before ∷ paths (number (some o) n ixs))
unfolding number
number-IsLexAscending before o n [] h = tt
number-IsLexAscending before o n (ix ∷ rest) h =
    (h, number-IsLexAscending (o ∷ n ∷ []) o (n + 1) rest (next_path o n))

-- An outer instruction and all that it calls are visited in preorder, under flat paths in strictly
-- ascending order, in which the sinks sort: no two share one.
pub visit_all_with_flat_indices-IsLexAscending :
    (ix : InstructionUpdate) (o : ℕ)
    → path_of ix ≡ o ∷ []
    → (visited (visit_all_with_flat_indices ix) ≡ preorder ix)
      × IsLexAscending (paths (visit_all_with_flat_indices ix))
unfolding visit_all_with_flat_indices number_visited visit_all
visit_all_with_flat_indices-IsLexAscending ix o e =
    let rest = visit_from (size (inner_of ix)) (inner_of ix ∷ []) in
    (
      ap (◌∷◌ ix) (visited-number (first (path_of ix)) 0 rest)
          ∙ (visit_all-preorder ix (size (inner_of ix)) (omega arith)).0,
      subst (λ p. IsLexAscending (p ∷ paths (number (first p) 0 rest))) (sym e)
          (number-IsLexAscending (o ∷ []) o 0 rest (first_index o)),
    )
