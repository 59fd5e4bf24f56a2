-- ===== src/Preconf/Tests.antt =====
-- Runs of the model of the preconfirmation source, and its theorems at inputs that meet their
-- hypotheses.
use shipstern.Base.{
  ℕ, ◌≤◌, ◌≡◌, refl, Bool, true, false, Option, none, some, List, [], ◌∷◌, arith, length, inc64,
  keep,
}
use shipstern.Base.Maps.{get, insert}
use shipstern.Preconf.Convert.{Bytes, VersionedTransaction, Message, v0, transaction as to_proto}
use shipstern.Preconf.Convert.Restored.{restore, restore-transaction}
use shipstern.Preconf.Framer.{
  Name, success, Preconf, HarmonicPayload, BamPayload, slot_start, harmonic, bam, new_framer,
  apply_update, max_frames, cap_frames, start_slot, advance, take_transaction, emit, emit_wanted,
  route, take_signed, take_decoded, take_result, next_index, with_frame, frame_of, is_wanted,
  take_harmonic, take_update, reconnected, close_frames,
}
use shipstern.Preconf.Framer.Emission.{SendsDecoded, apply_update-SendsDecoded}
use shipstern.Preconf.Framer.Frames.{length-apply_update}
use shipstern.Preconf.Framer.Runs.{
  Input, update, resubscribed, Consecutive, indexes_of, step, index_for, indexes_of-Consecutive,
}
use shipstern.Preconf.Framer.Tallies.{Accounted, harmonic-Accounted}
use shipstern.Preconf.Reconnect.{
  Policy, unavailable, Answer, finished, resubscribing, run, wait, max_wait, initial_wait,
}
use shipstern.Preconf.Reconnect.Waits.{wait_bounds}
use shipstern.Preconf.Reconnect.Attempts.{Within, run-Within, GivenUp, waiting, run_gives_up}

abbrev message : Message
message = record {
  header = record {
    num_required_signatures = 1;
    num_readonly_signed_accounts = 0;
    num_readonly_unsigned_accounts = 0;
  };
  account_keys = (1 ∷ []) ∷ [];
  recent_blockhash = [];
  instructions = [];
}

abbrev signed : VersionedTransaction
signed = record { signatures = (9 ∷ []) ∷ []; message = v0 message [] }

restore-transaction_example : restore (to_proto signed) ≡ some signed
restore-transaction_example = restore-transaction signed

-- Any bytes decode but none.
abbrev decode : Bytes → Option VersionedTransaction
decode [] = none
decode (_ ∷ _) = some signed

abbrev never : List Bytes → Bool → List Bytes → Bool
never _ _ _ = false

abbrev no_rules : Name → Option Bool
no_rules _ = none

abbrev preconf : ℕ → Preconf
preconf slot = record { slot = slot; execution_result = some success; transaction = 1 ∷ [] }

abbrev named : List Name
named = (7 ∷ []) ∷ []

abbrev inputs : List Input
inputs =
    update (harmonic [] (some (slot_start 10)))
    ∷ update (harmonic named (some (HarmonicPayload.transaction (preconf 10))))
    ∷ resubscribed
    ∷ update (harmonic named (some (HarmonicPayload.transaction (preconf 10))))
    ∷ []

indexes : indexes_of decode never 10 inputs (new_framer no_rules) ≡ 0 ∷ 1 ∷ []
unfolding new_framer indexes_of step index_for apply_update cap_frames get insert start_slot advance
    take_transaction emit emit_wanted route take_signed take_decoded take_result next_index
    with_frame frame_of is_wanted keep take_harmonic take_update inc64 reconnected close_frames
indexes = refl

indexes_of-Consecutive_example :
    Consecutive 0 (indexes_of decode never 10 inputs (new_framer no_rules))
unfolding new_framer indexes_of step index_for apply_update cap_frames get insert start_slot advance
    take_transaction emit emit_wanted route take_signed take_decoded take_result next_index
    with_frame frame_of is_wanted keep take_harmonic take_update inc64 reconnected close_frames
indexes_of-Consecutive_example =
    indexes_of-Consecutive decode never no_rules 10 inputs (refl, (refl, (refl, (refl, tt))))
      (omega arith)

length-apply_update_example :
    length
      (apply_update decode never
        (bam named (some (BamPayload.transaction (preconf 3))))
        (new_framer no_rules)).1.frames
    ≤ max_frames
length-apply_update_example =
    length-apply_update decode never (bam named (some (BamPayload.transaction (preconf 3))))
      (new_framer no_rules)

harmonic-Accounted_example : Accounted (new_framer no_rules).counts (
    apply_update decode never
      (harmonic [] (some (HarmonicPayload.transaction (preconf 3))))
      (new_framer no_rules))
unfolding new_framer
harmonic-Accounted_example =
    harmonic-Accounted decode never [] (preconf 3) (new_framer no_rules) (record {
      unknown_result = omega arith;
      undecodable = omega arith;
      vote_rule_dropped = omega arith;
      unknown_payload = omega arith;
    })

wait_bounds_example : (initial_wait ≤ wait 5) × (wait 5 ≤ max_wait)
wait_bounds_example = wait_bounds 5

abbrev policy : Policy
policy = record { enabled = true; max_retries = some 2; subscribe_timeout = 1000 }

abbrev refusal : Answer
refusal = record { stream_next = finished; elapsed = 5; subscribe = some unavailable }

run-Within_example : Within 2 (run (refusal ∷ refusal ∷ []) (resubscribing policy)).1
unfolding resubscribing
run-Within_example =
    run-Within 2 (refusal ∷ refusal ∷ []) (resubscribing policy) (refl, omega arith)

run_gives_up_example :
    GivenUp unavailable (run (refusal ∷ refusal ∷ refusal ∷ []) (waiting policy 0))
run_gives_up_example =
    run_gives_up 2 unavailable policy (refusal ∷ refusal ∷ refusal ∷ []) 0 refl (omega arith)
      (omega arith) (refl, (refl, (refl, tt))) (omega arith)

apply_update-SendsDecoded_example :
    SendsDecoded decode never named no_rules (preconf 3) (
      apply_update decode never
        (harmonic named (some (HarmonicPayload.transaction (preconf 3))))
        (new_framer no_rules))
    × SendsDecoded decode never named no_rules (preconf 3) (
        apply_update decode never
          (bam named (some (BamPayload.transaction (preconf 3))))
          (new_framer no_rules))
unfolding new_framer
apply_update-SendsDecoded_example =
    apply_update-SendsDecoded decode never named (preconf 3) (new_framer no_rules)
