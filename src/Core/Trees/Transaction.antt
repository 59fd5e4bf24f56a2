-- ===== src/Core/Trees/Transaction.antt =====
-- `InstructionUpdate::build_from_txn` of crates/core/src/instruction.rs. The parser of a base58 key in a
-- log line is a parameter.
use Prim.Native.String.{String}
use shipstern.Base.{
  ℕ, zero, suc, ◌+◌, ◌≡◌, refl, ap, ◌∙◌, Bool, true, false, Option, none, some, List, [], ◌∷◌, ◌++◌,
  length, Bool-cases, inl, inr, Option-cases, ◌-◌, ◌==◌,
}
use shipstern.Base.Results.{Result, ok, err, ◌>>=◌}
use shipstern.Core.Logs.{
  Pubkey, Head, instruction, Instructions, none_left, and_then, walk, kind_at, find_outer_from,
  names_program, assign_from, assign_log_messages,
}
use shipstern.Core.Logs.Nesting.{kind-cases}
use shipstern.Core.Trees.{
  AccountKeys, CompiledInstruction, InnerInstructions, Missing, transaction_info, transaction,
  transaction_meta, transaction_message, transaction_message_header, ParseError, missing, ok_or,
  build_outer_instruction, attach_inner_instructions,
}
use shipstern.Core.Trees.Attached.{attach_flat, attach_inner_instructions-flat}
use shipstern.Core.Trees.Heads.{heads, outer_heads, result_map}
use shipstern.Core.Trees.Reference.{alone, head_at, flat_outer, build_instruction_lem}

pub record Message : Type 0 where
  pub has_header : Bool
  pub account_keys : List (List ℕ)
  pub instructions : List CompiledInstruction

pub record TransactionStatusMeta : Type 0 where
  pub inner_instructions : List InnerInstructions
  pub log_messages : List String
  pub loaded_writable_addresses : List (List ℕ)
  pub loaded_readonly_addresses : List (List ℕ)

-- The outer option is that of the field `transaction`, the inner one that of its field `message`.
pub record TransactionInfo : Type 0 where
  pub transaction : Option (Option Message)
  pub meta : Option TransactionStatusMeta

unfoldable pub name : Missing → String
name transaction_info = "transaction info"
name transaction = "transaction"
name transaction_meta = "transaction status and metadata"
name transaction_message = "transaction message"
name transaction_message_header = "transaction message header"

-- The outer instructions from an index on, each with a path of that index.
unfoldable pub build_outer_each :
    AccountKeys → ℕ → List CompiledInstruction → Result ParseError Instructions
unfolding build_outer_instruction
build_outer_each keys idx [] = ok none_left
build_outer_each keys idx (i ∷ is) = do
  built ← build_outer_instruction keys i (idx ∷ [])
  rest ← build_outer_each keys (idx + 1) is
  ok (and_then built rest)

abbrev pub header_of : Bool → Result ParseError (Unit {0})
header_of true = ok tt
header_of false = err (missing transaction_message_header)

abbrev pub keys_of : Message → TransactionStatusMeta → AccountKeys
keys_of message meta = record {
  static_keys = message.account_keys;
  dynamic_rw = meta.loaded_writable_addresses;
  dynamic_ro = meta.loaded_readonly_addresses;
}

build_outer_each-flat :
    (keys : AccountKeys) (idx : ℕ) (is : List CompiledInstruction)
    → result_map outer_heads (build_outer_each keys idx is) ≡ flat_outer keys idx is
unfolding build_outer_each build_outer_instruction outer_heads heads
build_outer_each-flat keys idx [] = refl
build_outer_each-flat keys idx (i ∷ is) =
    ap
      (λ r.
        result_map outer_heads
          (r >>= λ built. build_outer_each keys (idx + 1) is >>= λ rest. ok (and_then built rest)))
      (build_instruction_lem keys i.program_id_index i.accounts i.data_ (idx ∷ []))
    ∙ both (head_at keys i.program_id_index i.accounts i.data_ (idx ∷ []))
        (build_outer_each keys (idx + 1) is)
    ∙ ap
        (λ t. head_at keys i.program_id_index i.accounts i.data_ (idx ∷ []) >>= λ h.
          t >>= λ rest. ok ((h ∷ []) ∷ rest))
        (build_outer_each-flat keys (idx + 1) is)
  where
    both :
        (r : Result ParseError Head) (t : Result ParseError Instructions)
        → result_map outer_heads
            ((r >>= λ h. ok (alone h)) >>= λ built. t >>= λ rest. ok (and_then built rest))
          ≡ (r >>= λ h. result_map outer_heads t >>= λ rest. ok ((h ∷ []) ∷ rest))
    both (err e) t = refl
    both (ok h) (err e) = refl
    both (ok h) (ok rest) = refl

-- The assignment of log lines leaves the instructions as they are, but for their ranges.
walk-heads :
    (n : ℕ) (logs : List String) (depth pos : ℕ) (inner : Instructions)
    → heads (walk n logs depth pos inner).1 ≡ heads inner
unfolding walk heads
walk-heads zero logs depth pos inner = refl
walk-heads (suc n) logs depth pos none_left = elim (kind-cases (kind_at logs pos)) [
  | inl e ↦ rw (e, walk) refl
  | inr (inl e) ↦ rw (e, walk) (walk-heads n logs (depth + 1) (pos + 1) none_left)
  | inr (inr (inl e)) ↦ elim (Bool-cases (depth == 1)) [
    | inl d ↦ rw (e, d, walk) refl
    | inr d ↦ rw (e, d, walk) (walk-heads n logs (depth - 1) (pos + 1) none_left)
  ]
  | inr (inr (inr e)) ↦ rw (e, walk) (walk-heads n logs depth (pos + 1) none_left)
]
walk-heads (suc n) logs depth pos (and_then (instruction h s t inner) rest) =
    let ixs = and_then (instruction h s t inner) rest in
    elim (kind-cases (kind_at logs pos)) [
      | inl e ↦ rw (e, walk) refl
      | inr (inl e) ↦
          let own = walk n logs 1 (pos + 1) inner in
          rw (e, walk)
            (ap (λ hs. h ∷ hs ++ heads (walk n logs depth own.0 rest).1)
                (walk-heads n logs 1 (pos + 1) inner)
              ∙ ap (λ hs. h ∷ heads inner ++ hs) (walk-heads n logs depth own.0 rest))
      | inr (inr (inl e)) ↦ elim (Bool-cases (depth == 1)) [
        | inl d ↦ rw (e, d, walk) refl
        | inr d ↦ rw (e, d, walk) (walk-heads n logs (depth - 1) (pos + 1) ixs)
      ]
      | inr (inr (inr e)) ↦ rw (e, walk) (walk-heads n logs depth (pos + 1) ixs)
    ]

module _ (parse_pubkey : String → Option Pubkey) where
  unfoldable pub build_from_txn : Option TransactionInfo → Result ParseError Instructions
  unfolding build_outer_each attach_inner_instructions assign_log_messages
  build_from_txn update = do
    info ← ok_or update (missing transaction_info)
    txn ← ok_or info.transaction (missing transaction)
    meta ← ok_or info.meta (missing transaction_meta)
    message ← ok_or txn (missing transaction_message)
    u ← header_of message.has_header
    outer ← build_outer_each (keys_of message meta) 0 message.instructions
    attached ← attach_inner_instructions (keys_of message meta) meta.inner_instructions outer
    ok (assign_log_messages parse_pubkey meta.log_messages attached)

  -- The reference: the same checks in the same order, keys read from the joined lists, and a flat
  -- list of heads for each outer instruction.
  abbrev pub flat_from_txn : Option TransactionInfo → Result ParseError (List (List Head))
  flat_from_txn update = do
    info ← ok_or update (missing transaction_info)
    txn ← ok_or info.transaction (missing transaction)
    meta ← ok_or info.meta (missing transaction_meta)
    message ← ok_or txn (missing transaction_message)
    u ← header_of message.has_header
    outer ← flat_outer (keys_of message meta) 0 message.instructions
    attach_flat (keys_of message meta) meta.inner_instructions outer

  assign_from-heads :
      (logs : List String) (cursor : ℕ) (outer : Instructions)
      → outer_heads (assign_from parse_pubkey logs cursor outer) ≡ outer_heads outer
  unfolding assign_from outer_heads heads
  assign_from-heads logs cursor none_left = refl
  assign_from-heads logs cursor (and_then (instruction h s t inner) rest) =
      elim (Option-cases (find_outer_from logs 0 cursor)) [
        | inl e ↦ rw (e, assign_from) refl
        | inr (pos, e) ↦ elim (Bool-cases (names_program parse_pubkey logs pos h.program)) [
          | inl named ↦
              let own = walk (length logs) logs 1 (pos + 1) inner in
              rw (e, named, assign_from)
                (ap (λ hs. (h ∷ hs) ∷ outer_heads (assign_from parse_pubkey logs own.0 rest))
                    (walk-heads (length logs) logs 1 (pos + 1) inner)
                  ∙ ap (λ hs. (h ∷ heads inner) ∷ hs) (assign_from-heads logs own.0 rest))
          | inr other ↦
              rw (e, other, assign_from)
                (ap (λ hs. (h ∷ heads inner) ∷ hs) (assign_from-heads logs cursor rest))
        ]
      ]

  assign-heads :
      (logs : List String) (outer : Instructions)
      → outer_heads (assign_log_messages parse_pubkey logs outer) ≡ outer_heads outer
  unfolding assign_log_messages
  assign-heads [] outer = refl
  assign-heads (l ∷ ls) outer = assign_from-heads (l ∷ ls) 0 outer

  assigned :
      (logs : List String) (r : Result ParseError Instructions)
      → result_map outer_heads (r >>= λ outer. ok (assign_log_messages parse_pubkey logs outer))
        ≡ result_map outer_heads r
  assigned logs (ok outer) = ap ok (assign-heads logs outer)
  assigned logs (err e) = refl

  after_outer :
      (keys : AccountKeys) (meta : TransactionStatusMeta) (r : Result ParseError Instructions)
      → result_map outer_heads (
          r >>= λ outer.
          attach_inner_instructions keys meta.inner_instructions outer >>= λ attached.
          ok (assign_log_messages parse_pubkey meta.log_messages attached))
        ≡ (result_map outer_heads r >>= attach_flat keys meta.inner_instructions)
  after_outer keys meta (err e) = refl
  after_outer keys meta (ok outer) =
      assigned meta.log_messages (attach_inner_instructions keys meta.inner_instructions outer)
      ∙ attach_inner_instructions-flat keys meta.inner_instructions outer

  after_message :
      (message : Message) (meta : TransactionStatusMeta) (b : Bool)
      → result_map outer_heads (
          header_of b >>= λ u.
          build_outer_each (keys_of message meta) 0 message.instructions >>= λ outer.
          attach_inner_instructions (keys_of message meta) meta.inner_instructions outer
          >>= λ attached. ok (assign_log_messages parse_pubkey meta.log_messages attached))
        ≡ (header_of b >>= λ u.
            flat_outer (keys_of message meta) 0 message.instructions
            >>= attach_flat (keys_of message meta) meta.inner_instructions)
  after_message message meta true =
      after_outer (keys_of message meta) meta
        (build_outer_each (keys_of message meta) 0 message.instructions)
      ∙ ap (λ r. r >>= attach_flat (keys_of message meta) meta.inner_instructions)
          (build_outer_each-flat (keys_of message meta) 0 message.instructions)
  after_message message meta false = refl

  from_parts :
      (transaction : Option (Option Message)) (meta : Option TransactionStatusMeta)
      → result_map outer_heads
          (build_from_txn (some (record { transaction = transaction; meta = meta })))
        ≡ flat_from_txn (some (record { transaction = transaction; meta = meta }))
  unfolding build_from_txn
  from_parts none meta = refl
  from_parts (some txn) none = refl
  from_parts (some none) (some meta) = refl
  from_parts (some (some message)) (some meta) = after_message message meta message.has_header

  -- Building the instructions of a transaction gives the outcome of the reference: an error for the first
  -- part that is missing, for the first key of a program or an account that is out of range or has not
  -- 32 bytes, or for a group with no outer instruction; or a tree for each outer instruction that is,
  -- read in preorder, the instruction and those of its groups, with the keys at their indexes, their
  -- data and their paths, whatever the log lines are.
  pub build_from_txn-flat :
      (update : Option TransactionInfo)
      → result_map outer_heads (build_from_txn update) ≡ flat_from_txn update
  unfolding build_from_txn
  build_from_txn-flat none = refl
  build_from_txn-flat (some info) = from_parts info.transaction info.meta
