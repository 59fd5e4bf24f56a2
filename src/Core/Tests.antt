-- ===== src/Core/Tests.antt =====
-- Runs of the model of the crate core, and its theorems at inputs that meet their hypotheses.
use Prim.Native.String.{String}
use shipstern.Base.{ℕ, some, ◌≡◌, refl, Option, List, [], ◌∷◌, arith, length}
use shipstern.Core.Logs.{
  Pubkey, Head, instruction, Instructions, none_left, and_then, walk, assign_log_messages,
}
use shipstern.Core.Logs.Nesting.{Untouched, Fits, assign_log_messages-Fits}
use shipstern.Core.Paths.{derive_paths_from_stackheights}
use shipstern.Core.Paths.Ordered.{IsLexAscending, derive_paths-IsLexAscending}
use shipstern.Core.Split.{split_logs_by_outer_ix}
use shipstern.Core.Logs.Fuel.{Walks, walk-Walks}

abbrev logs : List String
logs =
    "Program P1 invoke [1]" ∷ "Program log: invoke [2]" ∷ "Program P2 invoke [2]"
    ∷ "Program P2 success" ∷ "Program P1 success" ∷ []

abbrev head : List ℕ → List ℕ → Head
head program path = record { program = program; accounts = []; data_ = []; path = path }

abbrev outer : Instructions
outer =
    and_then
      (instruction (head [] []) 0 0
        (and_then (instruction (head (2 ∷ []) []) 0 0 none_left) none_left))
      none_left

-- Every name is that of the empty key.
abbrev parse_pubkey : String → Option Pubkey
parse_pubkey name = some []

assigned :
    assign_log_messages parse_pubkey logs outer
    ≡ and_then
        (instruction
          (head [] [])
          0
          5
          (and_then (instruction (head (2 ∷ []) []) 2 4 none_left) none_left))
        none_left
unfolding assign_log_messages
assigned = refl

assign_log_messages-Fits_example :
    Fits 0 (length logs) (assign_log_messages parse_pubkey logs outer)
unfolding Untouched
assign_log_messages-Fits_example =
    assign_log_messages-Fits parse_pubkey logs outer ((refl, refl, ((refl, refl, tt), tt)), tt)

walk-Walks_example : Walks logs 1 1 none_left (walk 9 logs 1 1 none_left)
walk-Walks_example = walk-Walks 9 logs 1 1 none_left (omega arith)

split : split_logs_by_outer_ix logs ≡ logs ∷ []
unfolding split_logs_by_outer_ix
split = refl

abbrev heights : List (Option ℕ)
heights = some 2 ∷ some 2 ∷ some 3 ∷ some 3 ∷ some 2 ∷ []

derived :
    derive_paths_from_stackheights heights 2
    ≡ (2 ∷ 0 ∷ []) ∷ (2 ∷ 1 ∷ []) ∷ (2 ∷ 1 ∷ 0 ∷ []) ∷ (2 ∷ 1 ∷ 1 ∷ []) ∷ (2 ∷ 2 ∷ []) ∷ []
unfolding derive_paths_from_stackheights
derived = refl

derive_paths-IsLexAscending_example :
    IsLexAscending (derive_paths_from_stackheights heights 2)
    × (length (derive_paths_from_stackheights heights 2) ≡ length heights)
derive_paths-IsLexAscending_example =
    derive_paths-IsLexAscending heights 2
      (omega arith, (omega arith, (omega arith, (omega arith, (omega arith, tt)))))
