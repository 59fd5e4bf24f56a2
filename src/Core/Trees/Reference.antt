-- ===== src/Core/Trees/Reference.antt =====
-- A reference for what crates/core/src/instruction.rs reads of one instruction: keys from the three
-- lists joined, and flat lists in place of trees.
use shipstern.Base.{
  ℕ, ◌+◌, ◌≡◌, refl, ap, ◌∙◌, map, unwrap_or, Bool-cases, inl, inr, Option, none, some, List, [],
  ◌∷◌, ◌++◌, length, ◌==◌, if◌then◌else◌,
}
use shipstern.Base.Results.{Result, ok, err, ◌>>=◌, traverse}
use shipstern.Core.Logs.{Pubkey, Head, InstructionUpdate, instruction, none_left}
use shipstern.Core.Trees.{
  AccountKeys, AccountKeyError, invalid_index, invalid_key, CompiledInstruction, InnerInstruction,
  Nested, ParseError, account_key, nth, to_key, key_at, from_key, build_instruction,
  build_inner_instruction, build_inner_each, heights_of,
}
use shipstern.Core.Trees.Keys.{key_of, key_at-joined}
use shipstern.Core.Trees.Heads.{heads, nested_heads, result_map}

abbrev pub found_key : Option (List ℕ) → ℕ → Result ParseError Pubkey
found_key none idx = err (account_key (invalid_index idx))
found_key (some k) idx = if length k == 32 then ok k else err (account_key invalid_key)

-- The key at an index of the three lists in sequence.
abbrev pub look_up : AccountKeys → ℕ → Result ParseError Pubkey
look_up keys idx =
    found_key (nth (keys.static_keys ++ (keys.dynamic_rw ++ keys.dynamic_ro)) idx) idx

abbrev pub look_up_each : AccountKeys → List ℕ → Result ParseError (List Pubkey)
look_up_each keys [] = ok []
look_up_each keys (i ∷ is) = do k ← look_up keys i; ks ← look_up_each keys is; ok (k ∷ ks)

-- What an instruction is, without the ones that it calls.
abbrev pub head_at : AccountKeys → ℕ → List ℕ → List ℕ → List ℕ → Result ParseError Head
head_at keys program_id_index accounts data_ path = do
  program ← look_up keys program_id_index
  found ← look_up_each keys accounts
  ok (record { program = program; accounts = found; data_ = data_; path = path })

-- Each outer instruction, alone in its list, with its index as its path.
abbrev pub flat_outer :
    AccountKeys → ℕ → List CompiledInstruction → Result ParseError (List (List Head))
flat_outer keys idx [] = ok []
flat_outer keys idx (i ∷ is) = do
  h ← head_at keys i.program_id_index i.accounts i.data_ (idx ∷ [])
  rest ← flat_outer keys (idx + 1) is
  ok ((h ∷ []) ∷ rest)

-- The inner instructions of a group, in its order, with their paths.
abbrev pub flat_inner :
    AccountKeys → List InnerInstruction → List (List ℕ) → Result ParseError (List Head)
flat_inner keys (i ∷ is) (p ∷ ps) = do
  h ← head_at keys i.program_id_index i.accounts i.data_ p
  rest ← flat_inner keys is ps
  ok (h ∷ rest)
flat_inner keys _ _ = ok []

abbrev pub stack_heights : List InnerInstruction → List (Option ℕ)
stack_heights = map (λ i. i.stack_height)

pub heights_of_lem : (is : List InnerInstruction) → heights_of is ≡ stack_heights is
unfolding heights_of
heights_of_lem [] = refl
heights_of_lem (i ∷ is) = ap (◌∷◌ i.stack_height) (heights_of_lem is)

look_up_lem : (keys : AccountKeys) (idx : ℕ) → from_key (key_at keys idx) ≡ look_up keys idx
look_up_lem keys idx =
    ap from_key (key_at-joined keys idx)
    ∙ of_found (nth (keys.static_keys ++ (keys.dynamic_rw ++ keys.dynamic_ro)) idx)
  where
    of_found :
        (o : Option (List ℕ))
        → from_key (unwrap_or (key_of o) (err (invalid_index idx))) ≡ found_key o idx
    of_found none = refl
    of_found (some k) =
        unfold to_key in elim (Bool-cases (length k == 32)) [ inl e ↦ rw e | inr e ↦ rw e ]

look_up_each_lem :
    (keys : AccountKeys) (is : List ℕ) → from_key (traverse (key_at keys) is) ≡ look_up_each keys is
unfolding traverse
look_up_each_lem keys [] = refl
look_up_each_lem keys (i ∷ is) =
    both (key_at keys i) (traverse (key_at keys) is)
    ∙ ap (λ r. r >>= λ k. from_key (traverse (key_at keys) is) >>= λ ks. ok (k ∷ ks))
        (look_up_lem keys i)
    ∙ ap (λ r. look_up keys i >>= λ k. r >>= λ ks. ok (k ∷ ks)) (look_up_each_lem keys is)
  where
    both :
        (r : Result AccountKeyError Pubkey) (t : Result AccountKeyError (List Pubkey))
        → from_key (r >>= λ k. t >>= λ ks. ok (k ∷ ks))
          ≡ (from_key r >>= λ k. from_key t >>= λ ks. ok (k ∷ ks))
    both (err e) t = refl
    both (ok k) (err e) = refl
    both (ok k) (ok ks) = refl

-- An instruction that calls none.
abbrev pub alone : Head → InstructionUpdate
alone h = instruction h 0 0 none_left

pub build_instruction_lem :
    (keys : AccountKeys) (program_id_index : ℕ) (accounts data_ path : List ℕ)
    → build_instruction keys program_id_index accounts data_ path
      ≡ (head_at keys program_id_index accounts data_ path >>= λ h. ok (alone h))
unfolding build_instruction
build_instruction_lem keys program_id_index accounts data_ path =
    read (from_key (key_at keys program_id_index)) (from_key (traverse (key_at keys) accounts))
    ∙ ap (λ r. made r (from_key (traverse (key_at keys) accounts)) >>= λ h. ok (alone h))
        (look_up_lem keys program_id_index)
    ∙ ap (λ r. made (look_up keys program_id_index) r >>= λ h. ok (alone h))
        (look_up_each_lem keys accounts)
  where
    made : Result ParseError Pubkey → Result ParseError (List Pubkey) → Result ParseError Head
    made r t = r >>= λ program. t >>= λ found.
        ok (record { program = program; accounts = found; data_ = data_; path = path })

    read :
        (r : Result ParseError Pubkey) (t : Result ParseError (List Pubkey))
        → (r >>= λ program. t >>= λ found.
            ok (alone (record { program = program; accounts = found; data_ = data_; path = path })))
          ≡ (made r t >>= λ h. ok (alone h))
    read (err e) t = refl
    read (ok k) (err e) = refl
    read (ok k) (ok ks) = refl

pub build_inner_each-flat :
    (keys : AccountKeys) (is : List InnerInstruction) (ps : List (List ℕ))
    → result_map nested_heads (build_inner_each keys is ps) ≡ flat_inner keys is ps
unfolding build_inner_each build_inner_instruction nested_heads heads
build_inner_each-flat keys [] ps = refl
build_inner_each-flat keys (i ∷ is) [] = refl
build_inner_each-flat keys (i ∷ is) (p ∷ ps) =
    ap
      (λ r. result_map nested_heads (
        (r >>= λ built. ok (built, i.stack_height)) >>= λ built.
        build_inner_each keys is ps >>= λ rest. ok (built ∷ rest)))
      (build_instruction_lem keys i.program_id_index i.accounts i.data_ p)
    ∙ both (head_at keys i.program_id_index i.accounts i.data_ p) (build_inner_each keys is ps)
    ∙ ap
        (λ t.
          head_at keys i.program_id_index i.accounts i.data_ p >>= λ h. t >>= λ rest. ok (h ∷ rest))
        (build_inner_each-flat keys is ps)
  where
    both :
        (r : Result ParseError Head) (t : Result ParseError (List Nested))
        → result_map nested_heads (
            ((r >>= λ h. ok (alone h)) >>= λ built. ok (built, i.stack_height)) >>= λ built.
            t >>= λ rest. ok (built ∷ rest))
          ≡ (r >>= λ h. result_map nested_heads t >>= λ rest. ok (h ∷ rest))
    both (err e) t = refl
    both (ok h) (err e) = refl
    both (ok h) (ok rest) = refl
