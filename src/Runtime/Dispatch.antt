-- ===== src/Runtime/Dispatch.antt =====
-- The pipelines that an update reaches: the sets of handler.rs and `run_job` of buffer.rs in
-- crates/runtime/src. The pipelines of one update run together; a run is a list in their order.
use shipstern.Base.{
  ◌≡◌, refl, ap, ◌∙◌, Option, none, some, List, [], ◌∷◌, ◌++◌, map, Option-cases, inl, inr,
}
use shipstern.Base.Maps.{Map, get, insert}
use shipstern.Base.Results.{Result, ok, err}
use shipstern.BlockCoordinator.Keys.{lex_ord}
use shipstern.Core.Prefilter.{Bytes, Prefilter}
use shipstern.Core.Prefilter.Filters.{Filters}
use shipstern.Runtime.Handler.{
  Errors, parse, handlers, already_handled, Reported, parser, handler, as_handlers, reported,
  DynPipeline,
}

module _ {E : Type 0} where
  -- What is logged of a run, none on success.
  abbrev pub logged : Result (Errors E) (Unit {0}) → List (Reported E)
  logged (ok u) = []
  logged (err e) = reported E e

  -- What a run has to log: the parse error, each error of a handler, or nothing for an error that
  -- is handled already.
  abbrev pub to_log : Result (Errors E) (Unit {0}) → List (Reported E)
  to_log (ok u) = []
  to_log (err (parse e)) = parser e ∷ []
  to_log (err (handlers es)) = map handler es
  to_log (err already_handled) = []

  as_handlers_lem : (es : List E) → as_handlers E es ≡ map handler es
  as_handlers_lem [] = refl
  as_handlers_lem (e ∷ es) = ap (◌∷◌ (handler e)) (as_handlers_lem es)

  logged_lem : (r : Result (Errors E) (Unit {0})) → logged r ≡ to_log r
  unfolding reported
  logged_lem (ok u) = refl
  logged_lem (err (parse e)) = refl
  logged_lem (err (handlers es)) = as_handlers_lem es
  logged_lem (err already_handled) = refl

module _ {E : Type 0} {T : Type 0} where
  -- `FromIterator`: of two pipelines with one id the later stays.
  unfoldable pub from_iter :
      List (DynPipeline E T) → Map Bytes (DynPipeline E T) → Map Bytes (DynPipeline E T)
  from_iter [] set = set
  from_iter (p ∷ ps) set = from_iter ps (insert p.id p set)

  -- `PipelineSet::filters`
  unfoldable pub set_filters : Map Bytes (DynPipeline E T) → List (Bytes × Prefilter)
  set_filters [] = []
  set_filters ((k, p) ∷ set) = (k, p.prefilter) ∷ set_filters set

  unfoldable pub get_pipelines :
      Map Bytes (DynPipeline E T) → List Bytes → List (Bytes × DynPipeline E T)
  get_pipelines set [] = []
  get_pipelines set (f ∷ fs) = elim (get f set) [
    | none ↦ get_pipelines set fs
    | some p ↦ (f, p) ∷ get_pipelines set fs
  ]

  unfoldable pub run_each : List (Bytes × DynPipeline E T) → T → List (Bytes × List (Reported E))
  unfolding reported
  run_each [] value = []
  run_each ((f, p) ∷ ps) value = (f, logged (p.run value)) ∷ run_each ps value

  unfoldable pub run :
      Map Bytes (DynPipeline E T) → List Bytes → T → List (Bytes × List (Reported E))
  unfolding get_pipelines run_each
  run set filters value = run_each (get_pipelines set filters) value

  -- The run of the pipeline of a name on the value, with what it logs; none without a pipeline.
  abbrev pub run_of : Option (DynPipeline E T) → Bytes → T → List (Bytes × List (Reported E))
  run_of none f value = []
  run_of (some p) f value = (f, to_log (p.run value)) ∷ []

  abbrev pub runs_of :
      Map Bytes (DynPipeline E T) → List Bytes → T → List (Bytes × List (Reported E))
  runs_of set [] value = []
  runs_of set (f ∷ fs) value = run_of (get f set) f value ++ runs_of set fs value

  -- A run calls the pipeline of each name, each as often as the update names it.
  pub run-runs_of :
      (set : Map Bytes (DynPipeline E T)) (filters : List Bytes) (value : T)
      → run set filters value ≡ runs_of set filters value
  unfolding run run_each get_pipelines
  run-runs_of set [] value = refl
  run-runs_of set (f ∷ fs) value = elim (Option-cases (get f set)) [
    | inl e ↦ rw (e, run, get_pipelines) (run-runs_of set fs value)
    | inr (p, e) ↦
        rw (e, run, get_pipelines)
          (ap (λ log. (f, log) ∷ run_each (get_pipelines set fs) value) (logged_lem (p.run value))
            ∙ ap (◌∷◌ (f, to_log (p.run value))) (run-runs_of set fs value))
  ]

module _ (E A T M B S : Type 0) where
  pub record PipelineSets : Type 0 where
    pub account : Map Bytes (DynPipeline E A)
    pub transaction : Map Bytes (DynPipeline E T)
    pub instruction : Map Bytes (DynPipeline E T)
    pub block_meta : Map Bytes (DynPipeline E M)
    pub block : Map Bytes (DynPipeline E B)
    pub slot : Map Bytes (DynPipeline E S)

  pub data UpdateOneof : Type 0 where
    account : A → UpdateOneof
    transaction : T → UpdateOneof
    block_meta : M → UpdateOneof
    block : B → UpdateOneof
    slot : S → UpdateOneof
    ping unknown : UpdateOneof

  pub record SubscribeUpdate : Type 0 where
    pub filters : List Bytes
    pub update_oneof : Option UpdateOneof

  -- The collection into a map, where a later entry replaces an earlier one.
  unfoldable pub collect_filters : List (Bytes × Prefilter) → Filters → Filters
  collect_filters [] fs = fs
  collect_filters ((k, p) ∷ rest) fs = collect_filters rest (insert k p fs)

  unfoldable pub sets_filters : PipelineSets → Filters
  unfolding collect_filters set_filters
  sets_filters sets =
      collect_filters
        (set_filters sets.account
          ++ (set_filters sets.transaction
              ++ (set_filters sets.instruction
                  ++ (set_filters sets.block_meta
                      ++ (set_filters sets.block ++ set_filters sets.slot)))))
        []

  unfoldable pub run_update :
      PipelineSets → List Bytes → UpdateOneof → List (Bytes × List (Reported E))
  unfolding run
  run_update sets filters (account a) = run sets.account filters a
  run_update sets filters (transaction t) =
      run sets.transaction filters t ++ run sets.instruction filters t
  run_update sets filters (block_meta b) = run sets.block_meta filters b
  run_update sets filters (block b) = run sets.block filters b
  run_update sets filters (slot s) = run sets.slot filters s
  run_update sets filters ping = []
  run_update sets filters unknown = []

  unfoldable pub run_oneof :
      PipelineSets → List Bytes → Option UpdateOneof → List (Bytes × List (Reported E))
  unfolding run_update
  run_oneof sets filters none = []
  run_oneof sets filters (some update) = run_update sets filters update

  unfoldable pub run_job : PipelineSets → SubscribeUpdate → List (Bytes × List (Reported E))
  unfolding run_oneof
  run_job sets job = run_oneof sets job.filters job.update_oneof

  -- The runs that an update is meant for: of the pipelines of its kind, and for a transaction those
  -- of the instruction pipelines after those of the transaction pipelines.
  abbrev pub meant :
      PipelineSets → List Bytes → Option UpdateOneof → List (Bytes × List (Reported E))
  meant sets fs none = []
  meant sets fs (some (account a)) = runs_of sets.account fs a
  meant sets fs (some (transaction t)) =
      runs_of sets.transaction fs t ++ runs_of sets.instruction fs t
  meant sets fs (some (block_meta b)) = runs_of sets.block_meta fs b
  meant sets fs (some (block b)) = runs_of sets.block fs b
  meant sets fs (some (slot s)) = runs_of sets.slot fs s
  meant sets fs (some ping) = []
  meant sets fs (some unknown) = []

  run_update-meant :
      (sets : PipelineSets) (fs : List Bytes) (update : UpdateOneof)
      → run_update sets fs update ≡ meant sets fs (some update)
  unfolding run_update
  run_update-meant sets fs (account a) = run-runs_of sets.account fs a
  run_update-meant sets fs (transaction t) =
      ap (λ xs. xs ++ run sets.instruction fs t) (run-runs_of sets.transaction fs t)
      ∙ ap (λ xs. runs_of sets.transaction fs t ++ xs) (run-runs_of sets.instruction fs t)
  run_update-meant sets fs (block_meta b) = run-runs_of sets.block_meta fs b
  run_update-meant sets fs (block b) = run-runs_of sets.block fs b
  run_update-meant sets fs (slot s) = run-runs_of sets.slot fs s
  run_update-meant sets fs ping = refl
  run_update-meant sets fs unknown = refl

  -- A job runs, on the value of its update, the pipeline of each name that the update lists in the
  -- set of its kind, in that order and as often as it is listed, and no other. It logs the parse
  -- error or the handler errors of each; a ping, an unknown update or none runs nothing.
  pub run_job-meant :
      (sets : PipelineSets) (job : SubscribeUpdate)
      → run_job sets job ≡ meant sets job.filters job.update_oneof
  unfolding run_job run_oneof
  run_job-meant sets job = of_update job.update_oneof
    where
      of_update : (o : Option UpdateOneof) → run_oneof sets job.filters o ≡ meant sets job.filters o
      of_update none = refl
      of_update (some update) = run_update-meant sets job.filters update
