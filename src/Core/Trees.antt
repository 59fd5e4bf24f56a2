-- ===== src/Core/Trees.antt =====
-- The instruction trees of a transaction, crates/core/src/instruction.rs. A transaction has the fields
-- that decide about its instructions; the others are only copied. An index, a u32 or a u8, always fits
-- a usize, so `AccountKeyError::IndexConvert` has no case here.
pub mod Keys
pub mod Heads
pub mod Reference
pub mod Attached
pub mod Visits
pub mod Transaction
pub mod Flat
mod Tests
use shipstern.Base.{
  ℕ, zero, suc, ◌+◌, ◌-◌, ◌≡◌, Bool, true, false, Option, none, some, List, [], ◌∷◌, ◌++◌, ltb,
  ◌==◌, length, if◌then◌else◌, unwrap_or, is_some_and, map,
}
use shipstern.Base.Results.{Result, ok, err, ◌>>=◌, traverse}
use shipstern.Core.Logs.{
  Pubkey, Head, InstructionUpdate, instruction, Instructions, none_left, and_then,
}
use shipstern.Core.Paths.{derive_paths_from_stackheights}

pub record AccountKeys : Type 0 where
  pub static_keys : List (List ℕ)
  pub dynamic_rw : List (List ℕ)
  pub dynamic_ro : List (List ℕ)

pub data AccountKeyError : Type 0 where
  invalid_index : ℕ → AccountKeyError
  invalid_key : AccountKeyError

pub data Missing : Type 0 where
  transaction_info transaction transaction_meta transaction_message : Missing
  transaction_message_header : Missing

pub data ParseError : Type 0 where
  missing : Missing → ParseError
  invalid_inner_instruction_index : ℕ → ParseError
  account_key : AccountKeyError → ParseError

abbrev pub nth {ℓ} : {A : Type ℓ} → List A → ℕ → Option A
nth [] i = none
nth (x ∷ xs) zero = some x
nth (x ∷ xs) (suc i) = nth xs i

-- `<[u8; 32]>::try_from`
unfoldable pub to_key : List ℕ → Result AccountKeyError Pubkey
to_key k = if length k == 32 then ok k else err invalid_key

-- The `find_map` over the three lists, with the index that is left.
unfoldable pub find_key : ℕ → List (List (List ℕ)) → Option (Result AccountKeyError Pubkey)
unfolding to_key
find_key i [] = none
find_key i (ks ∷ rest) = elim (nth ks i) [
  | none ↦ find_key (i - length ks) rest
  | some k ↦ some (to_key k)
]

unfoldable pub key_at : AccountKeys → ℕ → Result AccountKeyError Pubkey
unfolding find_key
key_at keys idx =
    unwrap_or (find_key idx (keys.static_keys ∷ keys.dynamic_rw ∷ keys.dynamic_ro ∷ []))
      (err (invalid_index idx))

pub record CompiledInstruction : Type 0 where
  pub program_id_index : ℕ
  pub accounts : List ℕ
  pub data_ : List ℕ

pub record InnerInstruction : Type 0 where
  pub program_id_index : ℕ
  pub accounts : List ℕ
  pub data_ : List ℕ
  pub stack_height : Option ℕ

pub record InnerInstructions : Type 0 where
  pub index : ℕ
  pub instructions : List InnerInstruction

-- The conversion of `?`.
abbrev pub from_key {ℓ} : {A : Type ℓ} → Result AccountKeyError A → Result ParseError A
from_key (ok a) = ok a
from_key (err e) = err (account_key e)

unfoldable pub build_instruction :
    AccountKeys → ℕ → List ℕ → List ℕ → List ℕ → Result ParseError InstructionUpdate
unfolding key_at traverse
build_instruction keys program_id_index accounts data_ path = do
  program ← from_key (key_at keys program_id_index)
  found ← from_key (traverse (key_at keys) accounts)
  ok (
      instruction (record { program = program; accounts = found; data_ = data_; path = path }) 0 0
        none_left)

unfoldable pub build_outer_instruction :
    AccountKeys → CompiledInstruction → List ℕ → Result ParseError InstructionUpdate
unfolding build_instruction
build_outer_instruction keys ins path =
    build_instruction keys ins.program_id_index ins.accounts ins.data_ path

-- An instruction that is being nested, with its stack height.
abbrev pub Nested : Type 0
Nested = InstructionUpdate × Option ℕ

unfoldable pub build_inner_instruction :
    AccountKeys → InnerInstruction → List ℕ → Result ParseError Nested
unfolding build_instruction
build_inner_instruction keys ins path = do
  built ← build_instruction keys ins.program_id_index ins.accounts ins.data_ path
  ok (built, ins.stack_height)

-- The instructions with the paths at their indexes. There are as many paths.
unfoldable pub build_inner_each :
    AccountKeys → List InnerInstruction → List (List ℕ) → Result ParseError (List Nested)
unfolding build_inner_instruction
build_inner_each keys (i ∷ is) (p ∷ ps) = do
  built ← build_inner_instruction keys i p
  rest ← build_inner_each keys is ps
  ok (built ∷ rest)
build_inner_each keys _ _ = ok []

unfoldable pub append : Instructions → Instructions → Instructions
append none_left more = more
append (and_then i rest) more = and_then i (append rest more)

unfoldable pub push_child : InstructionUpdate → InstructionUpdate → InstructionUpdate
unfolding append
push_child (instruction head start end_ inner) child =
    instruction head start end_ (append inner (and_then child none_left))

-- `inner.get(i)` has a height above `height`.
unfoldable pub is_above : ℕ → Option ℕ → Bool
is_above height h = is_some_and h (λ n. ltb height n)

-- The inner loop for one parent: what follows it and is higher becomes its children.
unfoldable pub adopt : InstructionUpdate → ℕ → List Nested → InstructionUpdate × List Nested
unfolding push_child is_above
adopt parent height [] = (parent, [])
adopt parent height ((child, h) ∷ rest) =
    let adopted = adopt (push_child parent child) height rest in
    if is_above height h then adopted else (parent, (child, h) ∷ rest)

unfoldable pub nest_at : Nested → List Nested → List Nested
unfolding adopt
nest_at (parent, none) rest = (parent, none) ∷ rest
nest_at (parent, some height) rest =
    let (grown, left) = adopt parent height rest in (grown, some height) ∷ left

-- The loop from the last parent to the first: behind a parent, all is nested.
unfoldable pub nest : List Nested → List Nested
unfolding nest_at
nest [] = []
nest (i ∷ is) = nest_at i (nest is)

unfoldable pub without_heights : List Nested → Instructions
without_heights [] = none_left
without_heights ((i, h) ∷ rest) = and_then i (without_heights rest)

unfoldable pub extend_inner : InstructionUpdate → Instructions → InstructionUpdate
unfolding append
extend_inner (instruction head start end_ inner) more =
    instruction head start end_ (append inner more)

-- `outer.get_mut(i)`, then a change through the reference.
unfoldable pub extend_nth : ℕ → Instructions → Instructions → Option Instructions
unfolding extend_inner
extend_nth i more none_left = none
extend_nth zero more (and_then o rest) = some (and_then (extend_inner o more) rest)
extend_nth (suc i) more (and_then o rest) = elim (extend_nth i more rest) [
  | none ↦ none
  | some rest' ↦ some (and_then o rest')
]

abbrev pub has_nth : Instructions → ℕ → Bool
has_nth none_left i = false
has_nth (and_then o rest) zero = true
has_nth (and_then o rest) (suc i) = has_nth rest i

abbrev pub ok_or {ℓ} : {A : Type ℓ} → Option A → ParseError → Result ParseError A
ok_or none e = err e
ok_or (some a) e = ok a

unfoldable pub heights_of : List InnerInstruction → List (Option ℕ)
heights_of [] = []
heights_of (i ∷ is) = i.stack_height ∷ heights_of is

-- The round of the loop over the groups: the test of the index comes before the instructions are
-- built.
unfoldable pub attach_group :
    AccountKeys → InnerInstructions → Instructions → Result ParseError Instructions
unfolding extend_nth nest without_heights build_inner_each heights_of
attach_group keys group outer =
    if has_nth outer group.index
    then (do
      built ←
          build_inner_each keys group.instructions
            (derive_paths_from_stackheights (heights_of group.instructions) group.index)
      ok_or (extend_nth group.index (without_heights (nest built)) outer)
          (invalid_inner_instruction_index group.index))
    else err (invalid_inner_instruction_index group.index)

unfoldable pub attach_inner_instructions :
    AccountKeys → List InnerInstructions → Instructions → Result ParseError Instructions
unfolding attach_group
attach_inner_instructions keys [] outer = ok outer
attach_inner_instructions keys (g ∷ gs) outer = do
  attached ← attach_group keys g outer
  attach_inner_instructions keys gs attached
