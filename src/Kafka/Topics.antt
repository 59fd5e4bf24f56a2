-- ===== src/Kafka/Topics.antt =====
-- The topics of the records of crates/kafka-sink/src/sink.rs.
use shipstern.Base.{
  ℕ, ◌≡◌, refl, Bool, true, false, ◌||◌, Option, none, some, List, [], ◌∷◌, ◌++◌, if◌then◌else◌,
  arith,
}
use shipstern.Base.Maps.{contains}
use shipstern.Base.Maps.Sets.{same, same_refl, any, contains-collect}
use shipstern.BlockCoordinator.Keys.{lex_ord}
use shipstern.Core.Prefilter.{Bytes, Pubkey}
use shipstern.Kafka.Sink.{
  Texts, KafkaSink, Instruction, Account, AccountUpdate, DynParser, PreparedRecord, ParseOutcome,
  parsed, filtered, error, after_attempt, own_topics, first_record, parser_topics, collect_topics,
}
use shipstern.Kafka.Records.{
  prepare_decoded_instruction_record, prepare_fallback_instruction_record,
  prepare_decoded_account_record, prepare_fallback_account_record, parse_instruction, parse_inner,
  parse_account,
}

-- Nothing is sent, or it goes to one of the topics.
unfoldable pub sent_to : List Bytes → Option PreparedRecord → Bool
sent_to topics none = true
sent_to topics (some r) = any (λ k. same k r.topic) topics

unfoldable pub within : KafkaSink → Option PreparedRecord → Bool
within sink none = true
within sink (some r) = contains r.topic (collect_topics sink)

any-++ : (q : Bytes → Bool) (xs ys : List Bytes) → any q (xs ++ ys) ≡ (any q xs || any q ys)
unfolding any
any-++ q [] ys = refl
any-++ q (x ∷ xs) ys = ground (arith, any-++ q xs ys)

-- More topics do no harm.
sent_to-++ :
    (xs ys : List Bytes) (o : Option PreparedRecord)
    → sent_to ys o ≡ true
    → sent_to (xs ++ ys) o ≡ true
unfolding sent_to
sent_to-++ xs ys none h = refl
sent_to-++ xs ys (some r) h = ground (arith, any-++ (λ k. same k r.topic) xs ys)

sent_to_first :
    (r : PreparedRecord) (t : Bytes) (ts : List Bytes)
    → r.topic ≡ t
    → sent_to (t ∷ ts) (some r) ≡ true
unfolding sent_to any
sent_to_first r t ts h = rw (h, same_refl t)

sent_to_second :
    (r : PreparedRecord) (s t : Bytes) (ts : List Bytes)
    → r.topic ≡ t
    → sent_to (s ∷ t ∷ ts) (some r) ≡ true
sent_to_second r s t ts h = sent_to-++ (s ∷ []) (t ∷ ts) (some r) (sent_to_first r t ts h)

module _ (decoded fallback : Bytes → Bytes → PreparedRecord)
    (decoded_topic : (raw t : Bytes) → (decoded raw t).topic ≡ t)
    (fallback_topic : (raw t : Bytes) → (fallback raw t).topic ≡ t) where
  after_attempt-topics :
      (t : Bytes) (f : Option Bytes) (skipped after_error : Option PreparedRecord × Bool)
      (ts : List Bytes) (o : ParseOutcome)
      → sent_to ts skipped.0 ≡ true
      → sent_to ts after_error.0 ≡ true
      → sent_to (own_topics t f ++ ts) (after_attempt decoded fallback t f skipped after_error o).0
        ≡ true
  unfolding after_attempt own_topics
  after_attempt-topics t none sk ae ts (parsed raw) h e =
      sent_to_first (decoded raw t) t ts (decoded_topic raw t)
  after_attempt-topics t (some f) sk ae ts (parsed raw) h e =
      sent_to_first (decoded raw t) t (f ∷ ts) (decoded_topic raw t)
  after_attempt-topics t f sk ae ts filtered h e = sent_to-++ (own_topics t f) ts sk.0 h
  after_attempt-topics t none sk ae ts (error m) h e = sent_to-++ (t ∷ []) ts ae.0 e
  after_attempt-topics t (some f) sk ae ts (error m) h e =
      sent_to_second (fallback m f) t f ts (fallback_topic m f)

  branch-topics :
      (b : Bool) (ts : List Bytes) (x y : Option PreparedRecord × Bool)
      → sent_to ts x.0 ≡ true
      → sent_to ts y.0 ≡ true
      → sent_to ts (if b then x else y).0 ≡ true
  branch-topics true ts x y h e = h
  branch-topics false ts x y h e = e

  first_record-topics :
      {I : Type 0} (program : Pubkey) (input : I) (ps : List (DynParser I)) (had_error : Bool)
      → sent_to (parser_topics ps) (first_record decoded fallback program input ps had_error).0
        ≡ true
  unfolding first_record parser_topics sent_to
  first_record-topics program input [] had_error = refl
  first_record-topics program input (p ∷ ps) had_error =
      let ih = first_record-topics program input ps had_error in
      let ie = first_record-topics program input ps true in
      branch-topics (same program p.program_id) _ _ _
        (after_attempt-topics p.topic p.fallback_topic _ _ (parser_topics ps) (p.try_parse input) ih
          ie)
        (sent_to-++ (own_topics p.topic p.fallback_topic) (parser_topics ps) _ ih)

-- The two lists of parsers are collected into one set.
within-sent_to :
    (sink : KafkaSink) (o : Option PreparedRecord)
    → sent_to (parser_topics sink.instruction_parsers ++ parser_topics sink.account_parsers) o
      ≡ true
    → within sink o ≡ true
unfolding sent_to within collect_topics
within-sent_to sink none h = refl
within-sent_to sink (some r) h = rw (
  contains-collect r.topic
      (parser_topics sink.instruction_parsers ++ parser_topics sink.account_parsers),
  h,
)

sent_to-left :
    (xs ys : List Bytes) (o : Option PreparedRecord)
    → sent_to xs o ≡ true
    → sent_to (xs ++ ys) o ≡ true
unfolding sent_to
sent_to-left xs ys none h = refl
sent_to-left xs ys (some r) h = ground (arith, any-++ (λ k. same k r.topic) xs ys)

instruction-within :
    (texts : Texts) (sink : KafkaSink) (slot tx_index : ℕ) (signature : Bytes) (path : List ℕ)
    (ix : Instruction)
    → within sink (parse_instruction texts sink slot tx_index signature path ix).0 ≡ true
unfolding parse_instruction prepare_decoded_instruction_record prepare_fallback_instruction_record
instruction-within texts sink slot tx_index signature path ix = within-sent_to sink _ (
    sent_to-left (parser_topics sink.instruction_parsers) _ _ (
      first_record-topics _ _ (λ raw t. refl) (λ m t. refl) ix.head.program ix
        sink.instruction_parsers false))

account-within :
    (texts : Texts) (sink : KafkaSink) (slot : ℕ) (acct : AccountUpdate) (o : Option Account)
    → within sink (parse_inner texts sink slot acct o).0 ≡ true
unfolding within parse_inner prepare_decoded_account_record prepare_fallback_account_record
account-within texts sink slot acct none = refl
account-within texts sink slot acct (some inner) = within-sent_to sink _ (
    sent_to-++ (parser_topics sink.instruction_parsers) (parser_topics sink.account_parsers) _ (
      first_record-topics _ _ (λ raw t. refl) (λ m t. refl) inner.owner acct sink.account_parsers
        false))

-- Whatever the parsers answer, what is sent for an instruction or for an account goes to one of the
-- topics of the sink.
pub collect_topics_complete :
    (texts : Texts) (sink : KafkaSink) (slot tx_index : ℕ) (signature : Bytes) (path : List ℕ)
    (ix : Instruction) (acct : AccountUpdate)
    → (within sink (parse_instruction texts sink slot tx_index signature path ix).0 ≡ true)
      × (within sink (parse_account texts sink slot acct).0 ≡ true)
unfolding parse_account
collect_topics_complete texts sink slot tx_index signature path ix acct = (
  instruction-within texts sink slot tx_index signature path ix,
  account-within texts sink slot acct acct.account,
)
