-- ===== src/Runtime/Instruction.antt =====
-- The instruction pipelines, crates/runtime/src/instruction.rs. What the log gets is a list, in the
-- order of the calls.
use Prim.Native.String.{String}
use shipstern.Base.{
  ℕ, ◌≡◌, refl, sym, ap, ◌∙◌, subst, ◌≤◌, Bool, true, false, Option, List, [], ◌∷◌, ◌++◌,
  if◌then◌else◌, arith,
}
use mathlib.Core.List.{append_assoc, append-nil}
use shipstern.Base.Results.{Result, ok, err}
use shipstern.Core.Logs.{Pubkey, InstructionUpdate, Instructions, none_left, and_then}
use shipstern.Core.Prefilter.{Bytes, Prefilter}
use shipstern.Core.Prefilter.Merge.{merge_all}
use shipstern.Core.Trees.{ParseError}
use shipstern.Core.Trees.Transaction.{TransactionInfo, build_from_txn}
use shipstern.Core.Trees.Visits.{visit_all, preorder, preorders, size, inner_of, visit_all-preorder}
use shipstern.Runtime.Handler.{Errors, parse, already_handled, Reported, reported, DynPipeline}

module _ (E : Type 0) where
  -- The loop's state: whether an error is kept, and what was logged under which id.
  pub record Dispatch : Type 0 where
    pub failed : Bool
    pub reports : List (Bytes × List (Reported E))

  unfoldable pub after_call : Bytes → Result (Errors E) (Unit {0}) → Dispatch → Dispatch
  unfolding reported
  after_call id (ok u) d = d
  after_call id (err already_handled) d = d
  after_call id (err (parse e)) d = record {
    failed = true;
    reports = d.reports ++ (id, reported E (parse e)) ∷ [];
  }
  after_call id (err (Errors.handlers es)) d = record {
    failed = true;
    reports = d.reports ++ (id, reported E (Errors.handlers es)) ∷ [];
  }

  unfoldable pub each_pipe :
      List (DynPipeline E InstructionUpdate) → InstructionUpdate → Dispatch → Dispatch
  unfolding after_call
  each_pipe [] insn d = d
  each_pipe (p ∷ ps) insn d = each_pipe ps insn (after_call p.id (p.run insn) d)

  unfoldable pub each_instruction :
      List (DynPipeline E InstructionUpdate) → List InstructionUpdate → Dispatch → Dispatch
  unfolding each_pipe
  each_instruction pipes [] d = d
  each_instruction pipes (insn ∷ rest) d = each_instruction pipes rest (each_pipe pipes insn d)

  -- `flat_map(visit_all)`
  unfoldable pub visited_of : Instructions → List InstructionUpdate
  unfolding visit_all
  visited_of none_left = []
  visited_of (and_then ix rest) = visit_all ix ++ visited_of rest

  abbrev pub nothing_yet : Dispatch
  nothing_yet = record { failed = false; reports = [] }

  abbrev pub outcome : Dispatch → Result (Errors E) (Unit {0})
  outcome d = if d.failed then err already_handled else ok tt

  unfoldable pub dispatch_all :
      List (DynPipeline E InstructionUpdate)
      → Result E Instructions
      → Result (Errors E) (Unit {0}) × List (Bytes × List (Reported E))
  unfolding each_instruction visited_of
  dispatch_all pipes (err e) = (err (parse e), [])
  dispatch_all pipes (ok ixs) =
      let done = each_instruction pipes (visited_of ixs) nothing_yet in (outcome done, done.reports)

  abbrev pub map_parse : (ParseError → E) → Result ParseError Instructions → Result E Instructions
  map_parse f (ok ixs) = ok ixs
  map_parse f (err e) = err (f e)

  module _ (of_parse : ParseError → E) (parse_pubkey : String → Option Pubkey) where
    -- `InstructionPipeline::handle`, with what it logs.
    unfoldable pub handle_transaction :
        List (DynPipeline E InstructionUpdate)
        → Option TransactionInfo
        → Result (Errors E) (Unit {0}) × List (Bytes × List (Reported E))
    unfolding dispatch_all build_from_txn
    handle_transaction pipes txn =
        dispatch_all pipes (map_parse of_parse (build_from_txn parse_pubkey txn))

    -- `SingleInstructionPipeline::handle`
    unfoldable pub handle_single :
        DynPipeline E InstructionUpdate
        → Option TransactionInfo
        → Result (Errors E) (Unit {0}) × List (Bytes × List (Reported E))
    unfolding handle_transaction
    handle_single pipe txn = handle_transaction (pipe ∷ []) txn

  unfoldable pub prefilters : List (DynPipeline E InstructionUpdate) → List Prefilter
  prefilters [] = []
  prefilters (p ∷ ps) = p.prefilter ∷ prefilters ps

  unfoldable pub instruction_prefilter : List (DynPipeline E InstructionUpdate) → Prefilter
  unfolding merge_all prefilters
  instruction_prefilter pipes = merge_all (prefilters pipes)

  -- The failures of one call that are to be reported.
  abbrev pub failure : Bytes → Result (Errors E) (Unit {0}) → List (Bytes × List (Reported E))
  failure id (ok u) = []
  failure id (err already_handled) = []
  failure id (err (parse e)) = (id, reported E (parse e)) ∷ []
  failure id (err (Errors.handlers es)) = (id, reported E (Errors.handlers es)) ∷ []

  abbrev pub pipe_failures :
      List (DynPipeline E InstructionUpdate) → InstructionUpdate → List (Bytes × List (Reported E))
  pipe_failures [] insn = []
  pipe_failures (p ∷ ps) insn = failure p.id (p.run insn) ++ pipe_failures ps insn

  -- Those of every pipeline on every instruction.
  abbrev pub failures :
      List (DynPipeline E InstructionUpdate)
      → List InstructionUpdate
      → List (Bytes × List (Reported E))
  failures pipes [] = []
  failures pipes (insn ∷ rest) = pipe_failures pipes insn ++ failures pipes rest

  abbrev pub any_at_all : {A : Type 0} → List A → Bool
  any_at_all [] = false
  any_at_all (x ∷ xs) = true

  -- The state is that of its reports.
  abbrev Agrees : Dispatch → List (Bytes × List (Reported E)) → Type 0
  Agrees d rs = (d.reports ≡ rs) × (d.failed ≡ any_at_all rs)

  some_last : {A : Type 0} (xs : List A) (a : A) → true ≡ any_at_all (xs ++ a ∷ [])
  some_last [] a = refl
  some_last (x ∷ xs) a = refl

  after_call-Agrees :
      (id : Bytes) (r : Result (Errors E) (Unit {0})) (d : Dispatch)
      (rs : List (Bytes × List (Reported E)))
      → Agrees d rs
      → Agrees (after_call id r d) (rs ++ failure id r)
  unfolding after_call
  after_call-Agrees id (ok u) d rs h =
      (h.0 ∙ sym (append-nil rs), h.1 ∙ ap any_at_all (sym (append-nil rs)))
  after_call-Agrees id (err already_handled) d rs h =
      (h.0 ∙ sym (append-nil rs), h.1 ∙ ap any_at_all (sym (append-nil rs)))
  after_call-Agrees id (err (parse e)) d rs h =
      (ap (λ xs. xs ++ (id, reported E (parse e)) ∷ []) h.0, some_last rs _)
  after_call-Agrees id (err (Errors.handlers es)) d rs h =
      (ap (λ xs. xs ++ (id, reported E (Errors.handlers es)) ∷ []) h.0, some_last rs _)

  each_pipe-Agrees :
      (ps : List (DynPipeline E InstructionUpdate)) (insn : InstructionUpdate) (d : Dispatch)
      (rs : List (Bytes × List (Reported E)))
      → Agrees d rs
      → Agrees (each_pipe ps insn d) (rs ++ pipe_failures ps insn)
  unfolding each_pipe
  each_pipe-Agrees [] insn d rs h =
      (h.0 ∙ sym (append-nil rs), h.1 ∙ ap any_at_all (sym (append-nil rs)))
  each_pipe-Agrees (p ∷ ps) insn d rs h =
      subst (Agrees (each_pipe (p ∷ ps) insn d))
        (append_assoc rs (failure p.id (p.run insn)) (pipe_failures ps insn))
        (each_pipe-Agrees ps insn (after_call p.id (p.run insn) d) (rs ++ failure p.id (p.run insn))
          (after_call-Agrees p.id (p.run insn) d rs h))

  each_instruction-Agrees :
      (pipes : List (DynPipeline E InstructionUpdate)) (ixs : List InstructionUpdate) (d : Dispatch)
      (rs : List (Bytes × List (Reported E)))
      → Agrees d rs
      → Agrees (each_instruction pipes ixs d) (rs ++ failures pipes ixs)
  unfolding each_instruction
  each_instruction-Agrees pipes [] d rs h =
      (h.0 ∙ sym (append-nil rs), h.1 ∙ ap any_at_all (sym (append-nil rs)))
  each_instruction-Agrees pipes (insn ∷ rest) d rs h =
      subst (Agrees (each_instruction pipes (insn ∷ rest) d))
        (append_assoc rs (pipe_failures pipes insn) (failures pipes rest))
        (each_instruction-Agrees pipes rest (each_pipe pipes insn d)
          (rs ++ pipe_failures pipes insn) (each_pipe-Agrees pipes insn d rs h))

  visited_of-preorders : (ixs : Instructions) → visited_of ixs ≡ preorders ixs
  unfolding visited_of preorders
  visited_of-preorders none_left = refl
  visited_of-preorders (and_then ix rest) =
      ap (λ xs. xs ++ visited_of rest) (visit_all-preorder ix (size (inner_of ix)) (le_refl _)).0
      ∙ ap (λ xs. preorder ix ++ xs) (visited_of-preorders rest)
    where
      le_refl : (n : ℕ) → n ≤ n
      le_refl n = omega arith

  abbrev pub whole :
      Bool
      → List (Bytes × List (Reported E))
      → Result (Errors E) (Unit {0}) × List (Bytes × List (Reported E))
  whole failed fs = ((if failed then err already_handled else ok tt), fs)

  -- The reference: no call ends the loops, and any failure makes the whole one.
  abbrev pub dispatched :
      List (DynPipeline E InstructionUpdate)
      → Result E Instructions
      → Result (Errors E) (Unit {0}) × List (Bytes × List (Reported E))
  dispatched pipes (err e) = (err (parse e), [])
  dispatched pipes (ok ixs) = let fs = failures pipes (preorders ixs) in whole (any_at_all fs) fs

  dispatch_all-dispatched :
      (pipes : List (DynPipeline E InstructionUpdate)) (r : Result E Instructions)
      → dispatch_all pipes r ≡ dispatched pipes r
  unfolding dispatch_all
  dispatch_all-dispatched pipes (err e) = refl
  dispatch_all-dispatched pipes (ok ixs) =
      let done = each_instruction-Agrees pipes (visited_of ixs) nothing_yet [] (refl, refl) in
      ends (each_instruction pipes (visited_of ixs) nothing_yet) (failures pipes (visited_of ixs))
        done
      ∙ ap (λ is. whole (any_at_all (failures pipes is)) (failures pipes is))
          (visited_of-preorders ixs)
    where
      ends :
          (d : Dispatch) (fs : List (Bytes × List (Reported E)))
          → Agrees d fs
          → whole d.failed d.reports ≡ whole (any_at_all fs) fs
      ends d fs h = ap (λ b. whole b d.reports) h.1 ∙ ap (whole (any_at_all fs)) h.0

  module _ (of_parse : ParseError → E) (parse_pubkey : String → Option Pubkey) where
    -- A transaction that cannot be built fails with the parse error and calls no pipeline. Otherwise every
    -- pipeline gets every instruction of its trees in preorder, whatever the others answer, each failure
    -- is logged under the id of its pipeline, and the whole fails when there was one.
    pub handle_transaction-dispatched :
        (pipes : List (DynPipeline E InstructionUpdate)) (txn : Option TransactionInfo)
        → handle_transaction of_parse parse_pubkey pipes txn
          ≡ dispatched pipes (map_parse of_parse (build_from_txn parse_pubkey txn))
    unfolding handle_transaction
    handle_transaction-dispatched pipes txn =
        dispatch_all-dispatched pipes (map_parse of_parse (build_from_txn parse_pubkey txn))
