-- ===== src/Core/Trees/Attached.antt =====
-- The nesting of inner instructions, crates/core/src/instruction.rs, against a reference that keeps
-- them in one flat list for each outer instruction.
use shipstern.Base.{
  ℕ, zero, suc, ◌≡◌, refl, sym, ap, ◌∙◌, true, false, Option, none, some, List, [], ◌∷◌, ◌++◌,
  arith, ltb, length, if◌then◌else◌, Bool-cases, inl, inr,
}
use mathlib.Core.List.{append_assoc, append-nil}
use shipstern.Base.Results.{Result, ok, err, ◌>>=◌}
use shipstern.Core.Logs.{Head, InstructionUpdate, instruction, Instructions, none_left, and_then}
use shipstern.Core.Trees.Heads.{heads, heads_of, nested_heads, outer_heads, result_map}
use shipstern.Core.Trees.Reference.{
  stack_heights, flat_inner, heights_of_lem, build_inner_each-flat,
}
use shipstern.Core.Paths.{derive_paths_from_stackheights}
use shipstern.Core.Trees.{
  AccountKeys, InnerInstructions, Nested, ParseError, invalid_inner_instruction_index, append,
  push_child, is_above, adopt, nest_at, nest, without_heights, extend_inner, extend_nth, has_nth,
  ok_or, heights_of, build_inner_each, attach_group, attach_inner_instructions,
}

abbrev pub append_at : ℕ → List Head → List (List Head) → List (List Head)
append_at i more [] = []
append_at zero more (hs ∷ rest) = (hs ++ more) ∷ rest
append_at (suc i) more (hs ∷ rest) = hs ∷ append_at i more rest

-- The reference: a group goes behind what its outer instruction has, in the group's own order.
abbrev pub attach_group_flat :
    AccountKeys → InnerInstructions → List (List Head) → Result ParseError (List (List Head))
attach_group_flat keys group outer =
    if ltb group.index (length outer)
    then (do
      built ←
          flat_inner keys group.instructions
            (derive_paths_from_stackheights (stack_heights group.instructions) group.index)
      ok (append_at group.index built outer))
    else err (invalid_inner_instruction_index group.index)

abbrev pub attach_flat :
    AccountKeys → List InnerInstructions → List (List Head) → Result ParseError (List (List Head))
attach_flat keys [] outer = ok outer
attach_flat keys (g ∷ gs) outer = do
  attached ← attach_group_flat keys g outer
  attach_flat keys gs attached

heads-append : (a b : Instructions) → heads (append a b) ≡ heads a ++ heads b
unfolding heads append
heads-append none_left b = refl
heads-append (and_then ix rest) b =
    ap (λ hs. heads_of ix ++ hs) (heads-append rest b)
    ∙ sym (append_assoc (heads_of ix) (heads rest) (heads b))

heads_of-push_child :
    (parent child : InstructionUpdate)
    → heads_of (push_child parent child) ≡ heads_of parent ++ heads_of child
unfolding heads push_child
heads_of-push_child (instruction head start end_ inner) child = ap (◌∷◌ head) (
    heads-append inner (and_then child none_left)
    ∙ ap (λ hs. heads inner ++ hs) (append-nil (heads_of child)))

-- What a parent adopts moves from behind it to the end of its own instructions.
heads_of-adopt :
    (parent : InstructionUpdate) (height : ℕ) (rest : List Nested)
    → heads_of (adopt parent height rest).0 ++ nested_heads (adopt parent height rest).1
      ≡ heads_of parent ++ nested_heads rest
unfolding adopt nested_heads
heads_of-adopt parent height [] = refl
heads_of-adopt parent height ((child, h) ∷ rest) = elim (Bool-cases (is_above height h)) [
  | inl above ↦ rw above (
      heads_of-adopt (push_child parent child) height rest
      ∙ ap (λ hs. hs ++ nested_heads rest) (heads_of-push_child parent child)
      ∙ append_assoc (heads_of parent) (heads_of child) (nested_heads rest))
  | inr below ↦ rw below
]

nested_heads-nest_at :
    (i : Nested) (rest : List Nested) → nested_heads (nest_at i rest) ≡ nested_heads (i ∷ rest)
unfolding nest_at nested_heads
nested_heads-nest_at (parent, none) rest = refl
nested_heads-nest_at (parent, some height) rest = heads_of-adopt parent height rest

nested_heads-nest : (is : List Nested) → nested_heads (nest is) ≡ nested_heads is
unfolding nest nested_heads
nested_heads-nest [] = refl
nested_heads-nest ((i, h) ∷ is) =
    nested_heads-nest_at (i, h) (nest is) ∙ ap (λ hs. heads_of i ++ hs) (nested_heads-nest is)

heads-without_heights : (is : List Nested) → heads (without_heights is) ≡ nested_heads is
unfolding without_heights nested_heads heads
heads-without_heights [] = refl
heads-without_heights ((i, h) ∷ is) = ap (λ hs. heads_of i ++ hs) (heads-without_heights is)

heads_of-extend_inner :
    (o : InstructionUpdate) (more : Instructions)
    → heads_of (extend_inner o more) ≡ heads_of o ++ heads more
unfolding heads extend_inner
heads_of-extend_inner (instruction head start end_ inner) more =
    ap (◌∷◌ head) (heads-append inner more)

has_nth_lem : (outer : Instructions) (i : ℕ) → has_nth outer i ≡ ltb i (length (outer_heads outer))
unfolding outer_heads
has_nth_lem none_left i = ground arith
has_nth_lem (and_then o rest) zero = ground arith
has_nth_lem (and_then o rest) (suc i) = has_nth_lem rest i ∙ shifted i (length (outer_heads rest))
  where
    shifted : (m n : ℕ) → ltb m n ≡ ltb (suc m) (suc n)
    shifted m n = ground arith

abbrev Extends : ℕ → Instructions → Instructions → Option Instructions → Type 0
Extends i more outer none = has_nth outer i ≡ false
Extends i more outer (some out) = outer_heads out ≡ append_at i (heads more) (outer_heads outer)

extend_nth-Extends :
    (i : ℕ) (more outer : Instructions) → Extends i more outer (extend_nth i more outer)
unfolding extend_nth outer_heads
extend_nth-Extends i more none_left = refl
extend_nth-Extends zero more (and_then o rest) =
    ap (λ hs. hs ∷ outer_heads rest) (heads_of-extend_inner o more)
extend_nth-Extends (suc i) more (and_then o rest) =
    behind (extend_nth i more rest) (extend_nth-Extends i more rest)
  where
    behind :
        (e : Option Instructions)
        → Extends i more rest e
        → Extends
            (suc i)
            more
            (and_then o rest)
            (elim e [ none ↦ none | some rest' ↦ some (and_then o rest') ])
    behind none h = h
    behind (some rest') h = ap (◌∷◌ (heads_of o)) h

-- The end of a round, once the instructions are built.
extended :
    (i : ℕ) (more outer : Instructions) (o : Option Instructions) (e : ParseError)
    → has_nth outer i ≡ true
    → Extends i more outer o
    → result_map outer_heads (ok_or o e) ≡ ok (append_at i (heads more) (outer_heads outer))
extended i more outer none e h x = absurd (clash h x)
  where
    clash : has_nth outer i ≡ true → has_nth outer i ≡ false → ⊥
    clash a b = ground arith
extended i more outer (some out) e h x = ap ok x

after_built :
    (i : ℕ) (outer : Instructions) (e : ParseError) (r : Result ParseError (List Nested))
    → has_nth outer i ≡ true
    → result_map outer_heads
        (r >>= λ built. ok_or (extend_nth i (without_heights (nest built)) outer) e)
      ≡ (result_map nested_heads r >>= λ built. ok (append_at i built (outer_heads outer)))
after_built i outer e (err x) h = refl
after_built i outer e (ok built) h =
    let more = without_heights (nest built) in
    extended i more outer (extend_nth i more outer) e h (extend_nth-Extends i more outer)
    ∙ ap (λ hs. ok (append_at i hs (outer_heads outer)))
        (heads-without_heights (nest built) ∙ nested_heads-nest built)

group_built :
    (keys : AccountKeys) (g : InnerInstructions)
    → result_map nested_heads (
        build_inner_each keys g.instructions
          (derive_paths_from_stackheights (heights_of g.instructions) g.index))
      ≡ flat_inner keys g.instructions
          (derive_paths_from_stackheights (stack_heights g.instructions) g.index)
group_built keys g =
    build_inner_each-flat keys g.instructions
      (derive_paths_from_stackheights (heights_of g.instructions) g.index)
    ∙ ap (λ hs. flat_inner keys g.instructions (derive_paths_from_stackheights hs g.index))
        (heights_of_lem g.instructions)

attach_group-flat :
    (keys : AccountKeys) (g : InnerInstructions) (outer : Instructions)
    → result_map outer_heads (attach_group keys g outer)
      ≡ attach_group_flat keys g (outer_heads outer)
unfolding attach_group
attach_group-flat keys g outer = elim (Bool-cases (has_nth outer g.index)) [
  | inl there ↦
      rw (there, sym (has_nth_lem outer g.index) ∙ there)
        (after_built g.index outer (invalid_inner_instruction_index g.index)
            (build_inner_each keys g.instructions
              (derive_paths_from_stackheights (heights_of g.instructions) g.index))
            there
          ∙ ap (λ r. r >>= λ built. ok (append_at g.index built (outer_heads outer)))
              (group_built keys g))
  | inr gone ↦ rw (gone, sym (has_nth_lem outer g.index) ∙ gone)
]

attach_rest :
    (keys : AccountKeys) (gs : List InnerInstructions) (r : Result ParseError Instructions)
    → ((outer : Instructions)
        → result_map outer_heads (attach_inner_instructions keys gs outer)
          ≡ attach_flat keys gs (outer_heads outer))
    → result_map outer_heads (r >>= attach_inner_instructions keys gs)
      ≡ (result_map outer_heads r >>= attach_flat keys gs)
attach_rest keys gs (ok outer) h = h outer
attach_rest keys gs (err e) h = refl

-- Attaching the groups of inner instructions succeeds or fails like the reference that keeps a flat list
-- for each outer instruction, with the same error, and read in preorder the tree of each outer
-- instruction is that list: the nesting loses, repeats and reorders no instruction.
pub attach_inner_instructions-flat :
    (keys : AccountKeys) (gs : List InnerInstructions) (outer : Instructions)
    → result_map outer_heads (attach_inner_instructions keys gs outer)
      ≡ attach_flat keys gs (outer_heads outer)
unfolding attach_inner_instructions
attach_inner_instructions-flat keys [] outer = refl
attach_inner_instructions-flat keys (g ∷ gs) outer =
    attach_rest keys gs (attach_group keys g outer) (attach_inner_instructions-flat keys gs)
    ∙ ap (λ r. r >>= attach_flat keys gs) (attach_group-flat keys g outer)
