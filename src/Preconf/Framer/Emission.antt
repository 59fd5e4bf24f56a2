-- ===== src/Preconf/Framer/Emission.antt =====
-- What crates/preconf-source/src/framer.rs puts into an update that goes out.
use shipstern.Base.{
  ◌≡◌, refl, ap, ◌∙◌, Bool, true, false, not, if◌then◌else◌, Option-cases, inl, inr, Option, none,
  some, List, [], ◌∷◌, keep, ℕ,
}
use shipstern.Base.Maps.{nat_ord}
use shipstern.Preconf.Convert.{
  Bytes, CompiledInstruction, VersionedMessage, legacy, v0, v1, VersionedTransaction, get_elem?,
  programs, transaction as to_proto, meta, is_vote,
}
use shipstern.Preconf.Framer.{
  Name, ExecutionResult, success, execution_failure, fees_only, Preconf, HarmonicPayload,
  BamPayload, harmonic, bam, Framer, SubscribeUpdate, Applied, failed, is_wanted, with_frame,
  open_frame, emit, emit_wanted, route, take_signed, take_decoded, take_result, take_transaction,
  advanced, capped, take_harmonic, take_bam, take_update, apply_update, vote_rule_dropped,
  unknown_payload, undecodable, unknown_result,
}

module _ (decode : Bytes → Option VersionedTransaction)
    (is_simple_vote : List Bytes → Bool → List Bytes → Bool) where
  -- The programs that the instructions call, by their indexes in the account keys.
  abbrev pub called : List Bytes → List CompiledInstruction → List (Option Bytes)
  called keys [] = []
  called keys (ix ∷ ixs) = get_elem? keys ix.program_id_index ∷ called keys ixs

  abbrev pub found : List (Option Bytes) → List Bytes
  found [] = []
  found (none ∷ os) = found os
  found (some k ∷ os) = k ∷ found os

  -- The vote flag, as the vote test sees each version of a message.
  abbrev pub votes : List Bytes → VersionedMessage → Bool
  votes s (legacy msg) = is_simple_vote s true (found (called msg.account_keys msg.instructions))
  votes s (v0 msg lookups) =
      is_simple_vote s false (found (called msg.account_keys msg.instructions))
  votes s (v1 msg config) =
      is_simple_vote s false (found (called msg.account_keys msg.instructions))

  -- A rule of true wants votes, one of false all but votes, and no rule wants both.
  abbrev pub lets_through : Option Bool → Bool → Bool
  lets_through none vote = true
  lets_through (some true) vote = vote
  lets_through (some false) true = false
  lets_through (some false) false = true

  -- The error of a result: empty bytes unless it is a success.
  abbrev pub err_of : ExecutionResult → Option Bytes
  err_of success = none
  err_of execution_failure = some []
  err_of fees_only = some []

  programs_lem :
      (keys : List Bytes) (ixs : List CompiledInstruction)
      → programs keys ixs ≡ found (called keys ixs)
  unfolding programs
  programs_lem keys [] = refl
  programs_lem keys (ix ∷ ixs) = elim (Option-cases (get_elem? keys ix.program_id_index)) [
    | inl e ↦ rw (e, programs) (programs_lem keys ixs)
    | inr (k, e) ↦ rw (e, programs) (ap (◌∷◌ k) (programs_lem keys ixs))
  ]

  is_vote_lem : (v : VersionedTransaction) → is_vote is_simple_vote v ≡ votes v.signatures v.message
  unfolding is_vote
  is_vote_lem v = of_message v.signatures v.message
    where
      of_message :
          (s : List Bytes) (m : VersionedMessage)
          → is_vote is_simple_vote (record { signatures = s; message = m }) ≡ votes s m
      of_message s (legacy msg) =
          ap (is_simple_vote s true) (programs_lem msg.account_keys msg.instructions)
      of_message s (v0 msg lookups) =
          ap (is_simple_vote s false) (programs_lem msg.account_keys msg.instructions)
      of_message s (v1 msg config) =
          ap (is_simple_vote s false) (programs_lem msg.account_keys msg.instructions)

  is_wanted_lem :
      (rules : Name → Option Bool) (vote : Bool) (n : Name)
      → is_wanted rules vote n ≡ lets_through (rules n) vote
  unfolding is_wanted
  is_wanted_lem rules vote n = of_rule (rules n) vote
    where
      of_rule :
          (rule : Option Bool) (vote : Bool)
          → (elim rule [ none ↦ true | some wanted ↦ if wanted then vote else not vote ])
            ≡ lets_through rule vote
      of_rule none vote = refl
      of_rule (some true) vote = refl
      of_rule (some false) true = refl
      of_rule (some false) false = refl

  keep-wanted :
      (rules : Name → Option Bool) (v : VersionedTransaction) (names : List Name)
      → keep (is_wanted rules (is_vote is_simple_vote v)) names
        ≡ keep (λ n. lets_through (rules n) (votes v.signatures v.message)) names
  unfolding keep
  keep-wanted rules v [] = refl
  keep-wanted rules v (n ∷ ns) =
      let same =
        is_wanted_lem rules (is_vote is_simple_vote v) n
        ∙ ap (lets_through (rules n)) (is_vote_lem v) in
      rw (same, keep-wanted rules v ns)

  meta_lem : (r : ExecutionResult) → (meta (failed r)).err ≡ err_of r
  unfolding meta
  meta_lem success = refl
  meta_lem execution_failure = refl
  meta_lem fees_only = refl

  -- An update that goes out is that of the transaction `v` with the result `r`.
  abbrev pub IsOf :
      List Name
      → (Name → Option Bool)
      → ℕ
      → ExecutionResult
      → VersionedTransaction
      → SubscribeUpdate
      → Type 0
  IsOf filters rules slot r v out =
      (out.slot ≡ slot)
      × (out.status.err ≡ err_of r)
      × (out.status.inner_instructions_none ≡ true)
      × (out.status.log_messages_none ≡ true)
      × (out.status.return_data_none ≡ true)
      × (out.transaction ≡ to_proto v)
      × (out.is_vote ≡ votes v.signatures v.message)
      × (out.filters ≡ keep (λ n. lets_through (rules n) (votes v.signatures v.message)) filters)

  abbrev Sends :
      List Name
      → (Name → Option Bool)
      → ℕ
      → ExecutionResult
      → VersionedTransaction
      → Applied
      → Type 0
  Sends filters rules slot r v (none, f') = Unit
  Sends filters rules slot r v (some out, f') = IsOf filters rules slot r v out

  -- Nothing goes out, or the transaction that the bytes decode to, with its result.
  abbrev pub SendsDecoded : List Name → (Name → Option Bool) → Preconf → Applied → Type 0
  SendsDecoded filters rules tx (none, f') = Unit
  SendsDecoded filters rules tx (some out, f') =
      (r : ExecutionResult) × (v : VersionedTransaction) × (tx.execution_result ≡ some r)
      × (decode tx.transaction ≡ some v)
      × IsOf filters rules tx.slot r v out

  emit_wanted-Sends :
      (all names : List Name) (slot : ℕ) (r : ExecutionResult) (v : VersionedTransaction)
      (signature : Bytes) (f : Framer)
      → names ≡ keep (is_wanted f.vote_rules (is_vote is_simple_vote v)) all
      → Sends all f.vote_rules slot r v
          (emit_wanted decode is_simple_vote names slot r v signature f)
  unfolding emit_wanted emit vote_rule_dropped meta
  emit_wanted-Sends all [] slot r v signature f e = tt
  emit_wanted-Sends all (n ∷ ns) slot r v signature f e =
      (refl, meta_lem r, refl, refl, refl, refl, is_vote_lem v, e ∙ keep-wanted f.vote_rules v all)

  route-Sends :
      (filters : List Name) (slot : ℕ) (r : ExecutionResult) (v : VersionedTransaction)
      (signature : Bytes) (f : Framer)
      → Sends filters f.vote_rules slot r v
          (route decode is_simple_vote filters slot r v signature f)
  unfolding route unknown_payload
  route-Sends [] slot r v signature f = tt
  route-Sends (n ∷ ns) slot r v signature f = emit_wanted-Sends (n ∷ ns) _ slot r v signature f refl

  take_signed-Sends :
      (filters : List Name) (slot : ℕ) (r : ExecutionResult) (v : VersionedTransaction)
      (signatures : List Bytes) (f : Framer)
      → Sends filters f.vote_rules slot r v
          (take_signed decode is_simple_vote filters slot r v signatures f)
  unfolding take_signed undecodable
  take_signed-Sends filters slot r v [] f = tt
  take_signed-Sends filters slot r v (s ∷ _) f = route-Sends filters slot r v s f

  Sends-Decoded :
      (filters : List Name) (rules : Name → Option Bool) (tx : Preconf) (r : ExecutionResult)
      (v : VersionedTransaction) (a : Applied)
      → tx.execution_result ≡ some r
      → decode tx.transaction ≡ some v
      → Sends filters rules tx.slot r v a
      → SendsDecoded filters rules tx a
  Sends-Decoded filters rules tx r v (none, f') e d h = tt
  Sends-Decoded filters rules tx r v (some out, f') e d h = (r, v, e, d, h)

  take_decoded-Sends :
      (filters : List Name) (tx : Preconf) (r : ExecutionResult) (o : Option VersionedTransaction)
      (f : Framer)
      → tx.execution_result ≡ some r
      → decode tx.transaction ≡ o
      → SendsDecoded filters f.vote_rules tx
          (take_decoded decode is_simple_vote filters tx.slot r o f)
  unfolding take_decoded undecodable
  take_decoded-Sends filters tx r none f e d = tt
  take_decoded-Sends filters tx r (some v) f e d =
      Sends-Decoded filters f.vote_rules tx r v _ e d
        (take_signed-Sends filters tx.slot r v v.signatures f)

  take_result-Sends :
      (filters : List Name) (tx : Preconf) (o : Option ExecutionResult) (f : Framer)
      → tx.execution_result ≡ o
      → SendsDecoded filters f.vote_rules tx
          (take_result decode is_simple_vote filters tx.slot o tx.transaction f)
  unfolding take_result unknown_result
  take_result-Sends filters tx none f e = tt
  take_result-Sends filters tx (some r) f e =
      take_decoded-Sends filters tx r (decode tx.transaction) f e refl

  capped-Sends :
      (filters : List Name) (rules : Name → Option Bool) (tx : Preconf) (a : Applied)
      → SendsDecoded filters rules tx a
      → SendsDecoded filters rules tx (capped a)
  capped-Sends filters rules tx (none, f') h = h
  capped-Sends filters rules tx (some out, f') h = h

  advanced-Sends :
      (filters : List Name) (rules : Name → Option Bool) (tx : Preconf) (slot : ℕ) (a : Applied)
      → SendsDecoded filters rules tx a
      → SendsDecoded filters rules tx (advanced slot a)
  advanced-Sends filters rules tx slot (none, f') h = h
  advanced-Sends filters rules tx slot (some out, f') h = h

  -- For a transaction of either feed nothing goes out, or what the bytes decode to does: with the
  -- slot of the transaction, `err` set unless its result (which is known) is a success, no inner
  -- instructions, log messages or return data, the vote flag of its message, and those of the names
  -- that the feed matched whose vote rule, if there is one, agrees with the flag.
  pub apply_update-SendsDecoded :
      (filters : List Name) (tx : Preconf) (f : Framer)
      → SendsDecoded filters f.vote_rules tx (
          apply_update decode is_simple_vote
            (harmonic filters (some (HarmonicPayload.transaction tx)))
            f)
        × SendsDecoded filters f.vote_rules tx
            (apply_update decode is_simple_vote (bam filters (some (BamPayload.transaction tx))) f)
  unfolding apply_update take_update take_harmonic take_bam take_transaction with_frame
  apply_update-SendsDecoded filters tx f = (
    capped-Sends filters f.vote_rules tx _
        (take_result-Sends filters tx tx.execution_result f refl),
    capped-Sends filters f.vote_rules tx _ (
        advanced-Sends filters f.vote_rules tx tx.slot _ (
          take_result-Sends filters tx tx.execution_result (with_frame tx.slot open_frame f) refl)),
  )
