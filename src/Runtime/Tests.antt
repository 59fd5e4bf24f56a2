-- ===== src/Runtime/Tests.antt =====
-- Runs of the model of the runtime, and its theorems at inputs that meet their hypotheses.
use Prim.Native.String.{String}
use shipstern.Base.{ℕ, ◌+◌, ◌≤◌, ◌≡◌, refl, true, Option, none, some, List, [], ◌∷◌, length}
use shipstern.Base.Results.{ok, err}
use shipstern.Core.Logs.{Pubkey, InstructionUpdate}
use shipstern.Core.Prefilter.{default_prefilter}
use shipstern.Core.Trees.Transaction.{TransactionInfo, build_from_txn}
use shipstern.Runtime.Handler.{parse, DynPipeline}
use shipstern.Runtime.Dispatch.{
  PipelineSets, SubscribeUpdate, transaction, run_job, meant, run_job-meant,
}
use shipstern.Runtime.Instruction.{
  handle_transaction, dispatched, map_parse, handle_transaction-dispatched,
}
use shipstern.Runtime.Buffer.{
  State, start, acquire, enqueue, end, spawn, finish, closed, Reach, here, next,
}
use shipstern.Runtime.Buffer.Drained.{reach-Bounded, closed_loses_none}

abbrev none_fails : DynPipeline ℕ ℕ
none_fails = record { id = 1 ∷ []; prefilter = default_prefilter; run = λ v. ok tt }

abbrev all_fail : DynPipeline ℕ ℕ
all_fail = record { id = 2 ∷ []; prefilter = default_prefilter; run = λ v. err (parse v) }

abbrev sets : PipelineSets ℕ ℕ ℕ ℕ ℕ ℕ
sets = record {
  account = [];
  transaction = (1 ∷ [], none_fails) ∷ [];
  instruction = (2 ∷ [], all_fail) ∷ [];
  block_meta = [];
  block = [];
  slot = [];
}

abbrev job : SubscribeUpdate ℕ ℕ ℕ ℕ ℕ ℕ
job = record { filters = (2 ∷ []) ∷ (3 ∷ []) ∷ (1 ∷ []) ∷ []; update_oneof = some (transaction 7) }

run_job-meant_example :
    run_job ℕ ℕ ℕ ℕ ℕ ℕ sets job ≡ meant ℕ ℕ ℕ ℕ ℕ ℕ sets job.filters job.update_oneof
run_job-meant_example = run_job-meant ℕ ℕ ℕ ℕ ℕ ℕ sets job

abbrev no_key : String → Option Pubkey
no_key text = none

abbrev update : TransactionInfo
update = record {
  transaction = some (some (record { has_header = true; account_keys = []; instructions = [] }));
  meta = some (record {
    inner_instructions = [];
    log_messages = [];
    loaded_writable_addresses = [];
    loaded_readonly_addresses = [];
  });
}

abbrev pipes : List (DynPipeline ℕ InstructionUpdate)
pipes = record { id = 2 ∷ []; prefilter = default_prefilter; run = λ v. err (parse 5) } ∷ []

handle_transaction-dispatched_example :
    handle_transaction ℕ (λ e. 0) no_key pipes (some update)
    ≡ dispatched ℕ pipes (map_parse ℕ (λ e. 0) (build_from_txn no_key (some update)))
handle_transaction-dispatched_example =
    handle_transaction-dispatched ℕ (λ e. 0) no_key pipes (some update)

-- One job, received, run and finished after the stream was closed.
abbrev taken : State
taken = record (start 1) { free = 0; queued = 0 ∷ []; received = 1; ended = some closed }

taken-Reach : Reach (start 1) taken
taken-Reach =
    next (next (next here (acquire 0 refl refl refl refl)) (enqueue refl refl refl))
      (end closed refl refl refl)

abbrev over : State
over = record taken { free = 1; queued = []; finished = 0 ∷ [] }

over-Reach : Reach (start 1) over
over-Reach = next (next taken-Reach (spawn 0 [] refl refl refl)) (finish [] [] 0 refl refl)

reach-Bounded_example : taken.holding + length taken.queued + length taken.running ≤ 1
reach-Bounded_example = reach-Bounded 1 taken taken-Reach

closed_loses_none_example : (length over.finished ≡ over.received) × (length over.dropped ≡ 0)
closed_loses_none_example = closed_loses_none 1 over over-Reach refl refl
