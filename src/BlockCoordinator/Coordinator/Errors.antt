-- ===== src/BlockCoordinator/Coordinator/Errors.antt =====
-- How the loop of crates/block-coordinator/src/coordinator.rs can end.
use shipstern.Base.{◌≡◌, refl, Option, none, some, List, [], ◌∷◌, inl, inr, Option-cases}
use shipstern.BlockCoordinator.Types.{
  CoordinatorError, two_gate_invariant_violation, ready_slot_missing_metadata,
  instruction_output_channel_closed, account_output_channel_closed, Outcome, ok, err, panic,
}
use shipstern.BlockCoordinator.State.{CoordinatorState, CoordinatorEvent, apply, apply_all}
use shipstern.BlockCoordinator.Valid.{IsValid, apply-IsValid}
use shipstern.BlockCoordinator.Flush.{instructions_return, accounts_return}
use shipstern.BlockCoordinator.Coordinator.{
  BlocksStateMachine, Coordinator, Input, Output, send, send_all, deliver, flush_instructions_of,
  flush_accounts_of, send_instructions, send_accounts, and_then, take_input, handle_input,
  run_inner, convert_input, geyser_update, account_event_seen, parsed,
}

-- The outcome is a return, or the report of a closed output channel.
abbrev pub ClosedOnly : Outcome (Unit {0}) → Type 0
ClosedOnly (ok u) = Unit
ClosedOnly (err (instruction_output_channel_closed slot)) = Unit
ClosedOnly (err (account_output_channel_closed slot)) = Unit
ClosedOnly (err (two_gate_invariant_violation slot last)) = ⊥
ClosedOnly (err (ready_slot_missing_metadata slot)) = ⊥
ClosedOnly panic = ⊥

pub apply_all-IsValid {ℓ} :
    {R : Type ℓ} (es : List (CoordinatorEvent R)) (st : CoordinatorState R)
    → IsValid st
    → IsValid (apply_all es st)
unfolding apply_all
apply_all-IsValid [] st v = v
apply_all-IsValid (e ∷ es) st v = apply_all-IsValid es (apply e st) (apply-IsValid e st v)

module _ {ℓ} {A : Type ℓ} (closed : A → CoordinatorError)
    (only : (a : A) → ClosedOnly (err (closed a))) where
  send_all-ClosedOnly : (as' : List A) (out : Output A) → ClosedOnly (send_all closed as' out).0
  unfolding send_all
  send_all-ClosedOnly [] out = tt
  send_all-ClosedOnly (a ∷ as') out = elim (Option-cases (send a out)) [
    | inl e ↦ rw (e, send_all) (only a)
    | inr (out', e) ↦ rw (e, send_all) (send_all-ClosedOnly as' out')
  ]

  deliver-ClosedOnly :
      (as' : List A) (out : Option (Output A)) → ClosedOnly (deliver closed as' out).0
  unfolding deliver
  deliver-ClosedOnly as' none = tt
  deliver-ClosedOnly as' (some out) = send_all-ClosedOnly as' out

module _ {ℓ} (m : BlocksStateMachine) (R : Type ℓ) where
  -- A result of the loop: no error but a closed channel, and a valid state.
  pub record EndsWell (r : Outcome (Unit {0}) × Coordinator m R) : Type 0 where
    pub outcome : ClosedOnly r.0
    pub valid : IsValid r.1.state

  and_then-EndsWell :
      (r : Outcome (Unit {0}) × Coordinator m R)
      (next : Coordinator m R → Outcome (Unit {0}) × Coordinator m R)
      → EndsWell r
      → ((c : Coordinator m R) → IsValid c.state → EndsWell (next c))
      → EndsWell (and_then m R r next)
  and_then-EndsWell (ok u, c) next h k = k c h.valid
  and_then-EndsWell (err e, c) next h k = h
  and_then-EndsWell (panic, c) next h k = h

  flush_instructions-EndsWell :
      (c : Coordinator m R) → IsValid c.state → EndsWell (flush_instructions_of m R c)
  unfolding flush_instructions_of
  flush_instructions-EndsWell c v =
      let (outs, st, e, order, v') = instructions_return c.state v in
      rw (e, send_instructions)
        (record {
          outcome = deliver-ClosedOnly _ (λ o. tt) outs c.instruction_output_tx;
          valid = v';
        })

  flush_accounts-EndsWell :
      (c : Coordinator m R) → IsValid c.state → EndsWell (flush_accounts_of m R c)
  unfolding flush_accounts_of
  flush_accounts-EndsWell c v =
      let (outs, st, e, order, v') = accounts_return c.state v in
      rw (e, send_accounts)
        (record { outcome = deliver-ClosedOnly _ (λ o. tt) outs c.account_output_tx; valid = v' })

  convert_input-state :
      (i : Input m R) (c : Coordinator m R) → (convert_input m R i c).1.state ≡ c.state
  unfolding convert_input
  convert_input-state (geyser_update u) c = refl
  convert_input-state (account_event_seen slot) c = refl
  convert_input-state (parsed msg) c = refl

  take_input-IsValid :
      (i : Input m R) (c : Coordinator m R) → IsValid c.state → IsValid (take_input m R i c).state
  unfolding take_input
  take_input-IsValid i c v =
      apply_all-IsValid (convert_input m R i c).0 _ (rw (convert_input-state i c) v)

  -- From a valid state, whatever the inputs, the loop ends by their end or by a closed output
  -- channel: a slot with no metadata and the two-gate error are never reported, and no buffer that
  -- a drain looks for is missing. The state is valid at the end.
  pub run_inner-EndsWell :
      (is : List (Input m R)) (c : Coordinator m R)
      → IsValid c.state
      → EndsWell (run_inner m R is c)
  unfolding run_inner handle_input
  run_inner-EndsWell [] c v = record { outcome = tt; valid = v }
  run_inner-EndsWell (i ∷ is) c v =
      and_then-EndsWell (handle_input m R i c) (run_inner m R is)
        (and_then-EndsWell (flush_instructions_of m R (take_input m R i c)) (flush_accounts_of m R)
          (flush_instructions-EndsWell (take_input m R i c) (take_input-IsValid i c v))
          flush_accounts-EndsWell)
        (run_inner-EndsWell is)
