-- ===== src/Core/Trees/Heads.antt =====
-- The instructions of a tree of crates/core/src/instruction.rs as flat lists.
use shipstern.Base.{List, [], ◌∷◌, ◌++◌}
use shipstern.Base.Results.{Result, ok, err}
use shipstern.Core.Logs.{Head, InstructionUpdate, instruction, Instructions, none_left, and_then}
use shipstern.Core.Trees.{Nested, ParseError}

-- The instructions of a tree, each before the ones that it calls.
unfoldable mutual
  pub heads : Instructions → List Head
  heads none_left = []
  heads (and_then ix rest) = heads_of ix ++ heads rest

  pub heads_of : InstructionUpdate → List Head
  heads_of (instruction head start end_ inner) = head ∷ heads inner

unfoldable pub nested_heads : List Nested → List Head
unfolding heads
nested_heads [] = []
nested_heads ((i, h) ∷ rest) = heads_of i ++ nested_heads rest

-- The list of each outer instruction.
unfoldable pub outer_heads : Instructions → List (List Head)
unfolding heads
outer_heads none_left = []
outer_heads (and_then o rest) = heads_of o ∷ outer_heads rest

abbrev pub result_map : {A B : Type 0} → (A → B) → Result ParseError A → Result ParseError B
result_map f (ok a) = ok (f a)
result_map f (err e) = err e
