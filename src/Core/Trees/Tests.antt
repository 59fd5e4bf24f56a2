-- ===== src/Core/Trees/Tests.antt =====
-- Runs of the model of the instruction trees, and its theorems at inputs that meet their hypotheses.
use Prim.Native.String.{String}
use shipstern.Base.{ℕ, ◌≡◌, refl, true, Option, none, some, List, [], ◌∷◌, ◌++◌, unwrap_or, arith}
use shipstern.Core.Logs.{Pubkey, Head, InstructionUpdate, instruction, none_left, and_then}
use shipstern.Core.Paths.Ordered.{IsLexAscending}
use shipstern.Base.Results.{err}
use shipstern.Core.Trees.{AccountKeys, invalid_index, key_at, nth, InnerInstructions, nest}
use shipstern.Core.Trees.Keys.{key_of, key_at-joined}
use shipstern.Core.Trees.Heads.{outer_heads, result_map}
use shipstern.Core.Trees.Transaction.{
  TransactionInfo, build_from_txn, flat_from_txn, build_from_txn-flat,
}
use shipstern.Core.Trees.Visits.{
  inner_of, size, visit_from, visit_all, preorder, visit_all-preorder,
}
use shipstern.Core.Trees.Flat.{
  visit_all_with_flat_indices, visited, paths, visit_all_with_flat_indices-IsLexAscending,
}

abbrev head : List ℕ → Head
head path = record { program = []; accounts = []; data_ = []; path = path }

abbrev leaf : List ℕ → InstructionUpdate
leaf path = instruction (head path) 0 0 none_left

-- Heights 2, 3, 3, 2: the second and the third belong to the first.
nested :
    nest (
      (leaf (0 ∷ []), some 2)
      ∷ (leaf (1 ∷ []), some 3)
      ∷ (leaf (2 ∷ []), some 3)
      ∷ (leaf (3 ∷ []), some 2)
      ∷ [])
    ≡ (
      instruction
          (head (0 ∷ []))
          0
          0
          (and_then (leaf (1 ∷ [])) (and_then (leaf (2 ∷ [])) none_left)),
      some 2,
    )
      ∷ (leaf (3 ∷ []), some 2)
      ∷ []
unfolding nest
nested = refl

abbrev keys : AccountKeys
keys = record { static_keys = [] ∷ []; dynamic_rw = []; dynamic_ro = (1 ∷ []) ∷ [] }

abbrev group : InnerInstructions
group = record {
  index = 0;
  instructions =
      record { program_id_index = 0; accounts = []; data_ = []; stack_height = some 2 } ∷ [];
}

abbrev no_key : String → Option Pubkey
no_key text = none

abbrev key32 : List ℕ
key32 =
    1 ∷ 1 ∷ 1 ∷ 1 ∷ 1 ∷ 1 ∷ 1 ∷ 1 ∷ 1 ∷ 1 ∷ 1 ∷ 1 ∷ 1 ∷ 1 ∷ 1 ∷ 1 ∷ 1 ∷ 1 ∷ 1 ∷ 1 ∷ 1 ∷ 1 ∷ 1 ∷ 1
    ∷ 1 ∷ 1 ∷ 1 ∷ 1 ∷ 1 ∷ 1 ∷ 1 ∷ 1 ∷ []

abbrev update : TransactionInfo
update = record {
  transaction = some (
      some (record {
        has_header = true;
        account_keys = key32 ∷ [];
        instructions = record { program_id_index = 0; accounts = 0 ∷ []; data_ = [] } ∷ [];
      }));
  meta = some (record {
    inner_instructions = group ∷ [];
    log_messages = [];
    loaded_writable_addresses = [];
    loaded_readonly_addresses = [];
  });
}

build_from_txn-flat_example :
    result_map outer_heads (build_from_txn no_key (some update))
    ≡ flat_from_txn no_key (some update)
build_from_txn-flat_example = build_from_txn-flat no_key (some update)

abbrev tree : InstructionUpdate
tree = instruction (head (4 ∷ [])) 0 0 (
    and_then (instruction (head (4 ∷ 0 ∷ [])) 0 0 (and_then (leaf (4 ∷ 0 ∷ 0 ∷ [])) none_left))
      (and_then (leaf (4 ∷ 1 ∷ [])) none_left))

flat_paths :
    paths (visit_all_with_flat_indices tree)
    ≡ (4 ∷ []) ∷ (4 ∷ 0 ∷ []) ∷ (4 ∷ 1 ∷ []) ∷ (4 ∷ 2 ∷ []) ∷ []
unfolding visit_all_with_flat_indices
flat_paths = refl

visit_all-preorder_example :
    (visit_all tree ≡ preorder tree)
    × (visit_from 9 (inner_of tree ∷ []) ≡ visit_from (size (inner_of tree)) (inner_of tree ∷ []))
unfolding size
visit_all-preorder_example = visit_all-preorder tree 9 (omega arith)

visit_all_with_flat_indices-IsLexAscending_example :
    (visited (visit_all_with_flat_indices tree) ≡ preorder tree)
    × IsLexAscending (paths (visit_all_with_flat_indices tree))
visit_all_with_flat_indices-IsLexAscending_example =
    visit_all_with_flat_indices-IsLexAscending tree 4 refl

key_at-joined_example :
    key_at keys 2
    ≡ unwrap_or
        (key_of (nth (keys.static_keys ++ (keys.dynamic_rw ++ keys.dynamic_ro)) 2))
        (err (invalid_index 2))
key_at-joined_example = key_at-joined keys 2
