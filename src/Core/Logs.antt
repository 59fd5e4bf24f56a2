-- ===== src/Core/Logs.antt =====
-- The assignment of log lines to instructions, crates/core/src/log_messages.rs. An instruction has
-- all its fields but the data that a transaction's instructions share.
pub mod Nesting
pub mod Fuel
use Prim.Native.String.{String}
use shipstern.Base.{
  ℕ, zero, suc, ◌+◌, ◌-◌, Bool, true, false, ◌&&◌, Option, none, some, List, [], ◌∷◌, leb, ◌==◌,
  length, if◌then◌else◌,
}
use shipstern.Core.Lines.{
  LogLineKind, invoke, close, other, classify_log_line, is_outer_invoke, program_name,
}

abbrev pub Pubkey : Type 0
Pubkey = List ℕ

-- What stays as it is when an instruction is built.
pub record Head : Type 0 where
  pub program : Pubkey
  pub accounts : List Pubkey
  pub data_ : List ℕ
  pub path : List ℕ

-- An instruction has its log range, a start and an end, and the inner instructions.
mutual
  pub data InstructionUpdate : Type 0 where
    instruction : Head → ℕ → ℕ → Instructions → InstructionUpdate

  pub data Instructions : Type 0 where
    none_left : Instructions
    and_then : InstructionUpdate → Instructions → Instructions

unfoldable pub line_at : List String → ℕ → Option String
line_at [] i = none
line_at (l ∷ ls) zero = some l
line_at (l ∷ ls) (suc i) = line_at ls i

unfoldable pub kind_at : List String → ℕ → Option LogLineKind
unfolding line_at classify_log_line
kind_at logs pos = elim (line_at logs pos) [ none ↦ none | some l ↦ some (classify_log_line l) ]

-- The loop of `assign_logs_recursive`, whose `inner_idx` is the front of `inner`: where the
-- instruction's lines end, and its inner instructions with their ranges. A nested call is the same
-- loop for the next inner instruction, from one line on. The fuel is for the lines that are left.
unfoldable pub walk : ℕ → List String → ℕ → ℕ → Instructions → ℕ × Instructions
unfolding kind_at
walk zero logs depth pos inner = (pos, inner)
walk (suc n) logs depth pos none_left = elim (kind_at logs pos) [
  | none ↦ (pos, none_left)
  | some invoke ↦ walk n logs (depth + 1) (pos + 1) none_left
  | some close ↦ elim (depth == 1) [
    | true ↦ (pos + 1, none_left)
    | false ↦ walk n logs (depth - 1) (pos + 1) none_left
  ]
  | some other ↦ walk n logs depth (pos + 1) none_left
]
walk (suc n) logs depth pos (and_then (instruction head start end_ inner) rest) =
    elim (kind_at logs pos) [
      | none ↦ (pos, and_then (instruction head start end_ inner) rest)
      | some invoke ↦
          let nested = walk n logs 1 (pos + 1) inner in
          let after = walk n logs depth nested.0 rest in
          (after.0, and_then (instruction head pos nested.0 nested.1) after.1)
      | some close ↦ elim (depth == 1) [
        | true ↦ (pos + 1, and_then (instruction head start end_ inner) rest)
        | false ↦
            walk n logs (depth - 1) (pos + 1) (and_then (instruction head start end_ inner) rest)
      ]
      | some other ↦ walk n logs depth (pos + 1) (and_then (instruction head start end_ inner) rest)
    ]

-- The first line of `invoke [1]` from the cursor on; the count is the number of the first line.
unfoldable pub find_outer_from : List String → ℕ → ℕ → Option ℕ
unfolding is_outer_invoke
find_outer_from [] i cursor = none
find_outer_from (l ∷ ls) i cursor =
    let later = find_outer_from ls (i + 1) cursor in
    if leb cursor i && is_outer_invoke l then some i else later

abbrev pub same_key : Pubkey → Pubkey → Bool
same_key [] [] = true
same_key (a ∷ as') (b ∷ bs) = (a == b) && same_key as' bs
same_key _ _ = false

module _ (parse_pubkey : String → Option Pubkey) where
  unfoldable pub invoked_program : String → Option Pubkey
  unfolding program_name
  invoked_program line = elim (program_name line) [ none ↦ none | some name ↦ parse_pubkey name ]

  unfoldable pub names_program : List String → ℕ → Pubkey → Bool
  unfolding line_at invoked_program
  names_program logs pos program = elim (line_at logs pos) [
    | none ↦ false
    | some l ↦ elim (invoked_program l) [ none ↦ false | some key ↦ same_key key program ]
  ]

  -- The loop of `assign_log_messages` from a cursor.
  unfoldable pub assign_from : List String → ℕ → Instructions → Instructions
  unfolding walk find_outer_from names_program
  assign_from logs cursor none_left = none_left
  assign_from logs cursor (and_then (instruction head start end_ inner) rest) =
      elim (find_outer_from logs 0 cursor) [
        | none ↦ and_then (instruction head start end_ inner) rest
        | some pos ↦ elim (names_program logs pos head.program) [
          | false ↦ and_then (instruction head start end_ inner) (assign_from logs cursor rest)
          | true ↦
              let own = walk (length logs) logs 1 (pos + 1) inner in
              and_then (instruction head pos own.0 own.1) (assign_from logs own.0 rest)
        ]
      ]

  -- The source returns early on no lines or no instructions, and so does the loop.
  unfoldable pub assign_log_messages : List String → Instructions → Instructions
  unfolding assign_from
  assign_log_messages [] outer = outer
  assign_log_messages (l ∷ ls) outer = assign_from (l ∷ ls) 0 outer
