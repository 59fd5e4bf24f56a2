-- ===== src/Runtime/Handler.antt =====
-- Pipelines, a parser with its handlers: handler.rs and filter_pipeline.rs of crates/runtime/src. A
-- handler is what it answers; the answers come in the order of the handlers, the code's in any.
use shipstern.Base.{Option, none, some, List, [], ◌∷◌}
use shipstern.Base.Results.{Result, ok, err}
use shipstern.Core.Prefilter.{Bytes, Prefilter}
use shipstern.Core.Prefilter.Merge.{merge}

module _ (E : Type 0) where
  pub data ParseFailure : Type 0 where
    filtered : ParseFailure
    discriminator_not_found other : E → ParseFailure

  -- `PipelineErrors`
  pub data Errors : Type 0 where
    parse : E → Errors
    handlers : List E → Errors
    already_handled : Errors

  -- One line of the log for a failed pipeline.
  pub data Reported : Type 0 where
    parser handler : E → Reported

  abbrev pub as_handlers : List E → List Reported
  as_handlers [] = []
  as_handlers (e ∷ es) = handler e ∷ as_handlers es

  -- The iterator over `PipelineErrors`, which its `handle` logs.
  unfoldable pub reported : Errors → List Reported
  reported (parse e) = parser e ∷ []
  reported (handlers es) = as_handlers es
  reported already_handled = []

  pub record Pipeline (I O : Type 0) : Type 0 where
    pub parse_value : I → Result ParseFailure O
    pub handlers : List (O → I → Option E)

  unfoldable pub errors_of : {I O : Type 0} → List (O → I → Option E) → O → I → List E
  errors_of [] parsed value = []
  errors_of (h ∷ hs) parsed value = elim (h parsed value) [
    | none ↦ errors_of hs parsed value
    | some e ↦ e ∷ errors_of hs parsed value
  ]

  unfoldable pub unless_empty : List E → Result Errors (Unit {0})
  unless_empty [] = ok tt
  unless_empty (e ∷ es) = err (handlers (e ∷ es))

  unfoldable pub handle_parsed :
      {I O : Type 0}
      → List (O → I → Option E)
      → I
      → Result ParseFailure O
      → Result Errors (Unit {0})
  unfolding errors_of unless_empty
  handle_parsed hs value (ok parsed) = unless_empty (errors_of hs parsed value)
  handle_parsed hs value (err filtered) = ok tt
  handle_parsed hs value (err (discriminator_not_found e)) = err (parse e)
  handle_parsed hs value (err (other e)) = err (parse e)

  unfoldable pub handle : {I O : Type 0} → Pipeline I O → I → Result Errors (Unit {0})
  unfolding handle_parsed
  handle p value = handle_parsed p.handlers value (p.parse_value value)

  pub record FilterPipeline (I O : Type 0) : Type 0 where
    pub pipeline : Pipeline I O
    pub parser_prefilter : Prefilter
    pub additional_filters : Prefilter

  unfoldable pub filter_prefilter : {I O : Type 0} → FilterPipeline I O → Prefilter
  unfolding merge
  filter_prefilter p = merge p.parser_prefilter p.additional_filters

  unfoldable pub handle_value : {I O : Type 0} → FilterPipeline I O → I → Result Errors (Unit {0})
  unfolding handle_parsed
  handle_value p value = handle_parsed p.pipeline.handlers value (p.pipeline.parse_value value)

  -- A boxed pipeline.
  pub record DynPipeline (T : Type 0) : Type 0 where
    pub id : Bytes
    pub prefilter : Prefilter
    pub run : T → Result Errors (Unit {0})
