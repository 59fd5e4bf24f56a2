-- ===== src/BlockCoordinator/Coordinator/Delivery.antt =====
-- What the receivers of crates/block-coordinator/src/coordinator.rs see over a whole run.
use shipstern.Base.{ℕ, Bool, ◌≡◌, refl, Option, none, some, List, [], ◌∷◌}
use shipstern.BlockCoordinator.Types.{
  Slot, instruction_output_channel_closed, account_output_channel_closed, InstructionSlot,
  AccountSlot, AccountCommitAt, Outcome, ok, err, panic,
}
use shipstern.BlockCoordinator.State.{CoordinatorState, CoordinatorEvent, apply, apply_all}
use shipstern.BlockCoordinator.Cases.{Orderly}
use shipstern.BlockCoordinator.Valid.{IsValid, apply-FrontiersAt, apply-IsValid, new-IsValid}
use shipstern.BlockCoordinator.Frontier.{Frontiers, Placed, apply-Frontiers, new-Frontiers}
use shipstern.BlockCoordinator.Flush.{flush_instructions, flush_accounts}
use shipstern.BlockCoordinator.Coordinator.Channel.{
  SentUpTo, InOrder, InOrder-of, deliver-Delivered,
}
use shipstern.BlockCoordinator.Coordinator.{
  BlocksStateMachine, Coordinator, Input, Output, flush_instructions_of, flush_accounts_of,
  send_instructions, send_accounts, and_then, take_input, handle_input, run_inner, convert_input,
  geyser_update, account_event_seen, parsed, new_coordinator,
}

-- A channel that has carried nothing, or none.
abbrev pub fresh {κ} : {A : Type κ} → Option ℕ → Option (Output A)
fresh none = none
fresh (some room) = some (record { sent = []; room = room })

fresh-SentUpTo {κ} :
    {A : Type κ} (tag : A → Slot) (room : Option ℕ) → SentUpTo tag none (fresh room)
fresh-SentUpTo tag none = tt
fresh-SentUpTo tag (some room) = (tt, refl)

module _ {ℓ} (m : BlocksStateMachine) (R : Type ℓ) where
  -- Each event is placed at the state that it meets.
  abbrev pub OrderlyEvents : List (CoordinatorEvent R) → CoordinatorState R → Type 0
  OrderlyEvents [] st = Unit
  OrderlyEvents (e ∷ es) st = Orderly Placed e st × OrderlyEvents es (apply e st)

  abbrev pub OrderlyRun : List (Input m R) → Coordinator m R → Type 0
  OrderlyRun [] c = Unit
  OrderlyRun (i ∷ is) c =
      OrderlyEvents (convert_input m R i c).0 c.state × OrderlyRun is (handle_input m R i c).1

  abbrev ix_tag : InstructionSlot R → Slot
  ix_tag o = o.slot

  abbrev acct_tag : AccountSlot R → Slot
  acct_tag o = o.slot

  record Steady (c : Coordinator m R) : Type 0 where
    valid : IsValid c.state
    frontiers : Frontiers c.state
    instructions :
        SentUpTo
          (λ (o : InstructionSlot R). o.slot)
          c.state.last_instruction_flushed_slot
          c.instruction_output_tx
    accounts :
        SentUpTo
          (λ (o : AccountSlot R). o.slot)
          c.state.last_account_flushed_slot
          c.account_output_tx

  -- Both receivers saw strictly ascending slots.
  pub record DeliversInOrder (c : Coordinator m R) : Type 0 where
    pub instructions : InOrder (λ (o : InstructionSlot R). o.slot) c.instruction_output_tx
    pub accounts : InOrder (λ (o : AccountSlot R). o.slot) c.account_output_tx

  record GoesOn (r : Outcome (Unit {0}) × Coordinator m R) : Type 0 where
    order : DeliversInOrder r.1
    steady : r.0 ≡ ok tt → Steady r.1

  Steady-GoesOn : (c : Coordinator m R) → Steady c → GoesOn (ok tt, c)
  Steady-GoesOn c h = record {
    order = record {
      instructions =
          InOrder-of _ c.state.last_instruction_flushed_slot c.instruction_output_tx h.instructions;
      accounts = InOrder-of _ c.state.last_account_flushed_slot c.account_output_tx h.accounts;
    };
    steady = λ _. h;
  }

  and_then-GoesOn :
      (r : Outcome (Unit {0}) × Coordinator m R)
      (next : Coordinator m R → Outcome (Unit {0}) × Coordinator m R)
      → GoesOn r
      → (r.0 ≡ ok tt → Steady r.1 → GoesOn (next r.1))
      → GoesOn (and_then m R r next)
  and_then-GoesOn (ok u, c) next h k = k refl (h.steady refl)
  and_then-GoesOn (err e, c) next h k = record { order = h.order; steady = λ e. cc }
  and_then-GoesOn (panic, c) next h k = record { order = h.order; steady = λ e. cc }

  flush_instructions-GoesOn :
      (c : Coordinator m R) → Steady c → GoesOn (flush_instructions_of m R c)
  unfolding flush_instructions_of
  flush_instructions-GoesOn c h =
      let (outs, st, f) = flush_instructions c.state h.valid h.frontiers in
      let d =
        deliver-Delivered (λ (o : InstructionSlot R). o.slot)
          (λ o. instruction_output_channel_closed o.slot) outs c.state.last_instruction_flushed_slot
          c.instruction_output_tx h.instructions f.ascending in
      rw (f.returned, send_instructions)
        (record {
          order = record {
            instructions = d.in_order;
            accounts =
                InOrder-of _ c.state.last_account_flushed_slot c.account_output_tx h.accounts;
          };
          steady = λ e. record {
            valid = f.valid;
            frontiers = f.frontiers;
            instructions = rw f.moved (d.up_to e);
            accounts = rw f.kept h.accounts;
          };
        })

  flush_accounts-GoesOn : (c : Coordinator m R) → Steady c → GoesOn (flush_accounts_of m R c)
  unfolding flush_accounts_of
  flush_accounts-GoesOn c h =
      let (outs, st, f) = flush_accounts c.state h.valid h.frontiers in
      let d =
        deliver-Delivered (λ (o : AccountSlot R). o.slot)
          (λ o. account_output_channel_closed o.slot) outs c.state.last_account_flushed_slot
          c.account_output_tx h.accounts f.ascending in
      rw (f.returned, send_accounts)
        (record {
          order = record {
            instructions =
                InOrder-of _ c.state.last_instruction_flushed_slot c.instruction_output_tx
                  h.instructions;
            accounts = d.in_order;
          };
          steady = λ e. record {
            valid = f.valid;
            frontiers = f.frontiers;
            instructions = rw f.kept h.instructions;
            accounts = rw f.moved (d.up_to e);
          };
        })

  events-Steady :
      (es : List (CoordinatorEvent R)) (c : Coordinator m R)
      → OrderlyEvents es c.state
      → Steady c
      → Steady (record c { state = apply_all es c.state })
  unfolding apply_all
  events-Steady [] c o h = h
  events-Steady (e ∷ es) c o h =
      let kept = apply-FrontiersAt e c.state in
      events-Steady es (record c { state = apply e c.state }) o.1
        (record {
          valid = apply-IsValid e c.state h.valid;
          frontiers = apply-Frontiers e c.state o.0 h.frontiers;
          instructions = rw (kept.0) h.instructions;
          accounts = rw (kept.1) h.accounts;
        })

  take_input-Steady :
      (i : Input m R) (c : Coordinator m R)
      → OrderlyEvents (convert_input m R i c).0 c.state
      → Steady c
      → Steady (take_input m R i c)
  unfolding take_input convert_input
  take_input-Steady (geyser_update u) c o h =
      events-Steady _ (record c { wrapper = _ }) o
        (record {
          valid = h.valid;
          frontiers = h.frontiers;
          instructions = h.instructions;
          accounts = h.accounts;
        })
  take_input-Steady (account_event_seen slot) c o h = events-Steady _ c o h
  take_input-Steady (parsed msg) c o h = events-Steady _ c o h

  run_inner-GoesOn :
      (is : List (Input m R)) (c : Coordinator m R)
      → OrderlyRun is c
      → Steady c
      → GoesOn (run_inner m R is c)
  unfolding run_inner handle_input
  run_inner-GoesOn [] c o h = Steady-GoesOn c h
  run_inner-GoesOn (i ∷ is) c o h =
      and_then-GoesOn (handle_input m R i c) (run_inner m R is)
        (and_then-GoesOn (flush_instructions_of m R (take_input m R i c)) (flush_accounts_of m R)
          (flush_instructions-GoesOn (take_input m R i c) (take_input-Steady i c o.0 h))
          (λ _ s. flush_accounts-GoesOn _ s))
        (λ _ s. run_inner-GoesOn is _ o.1 s)

  -- A coordinator that starts with nothing sent, and whose events stay ahead of the two flush
  -- frontiers or at buffered slots, unless the code drops them for their place, sends each of its two channels strictly ascending slots over
  -- the whole run, whatever the capacity of the channels and however the run ends.
  pub run-DeliversInOrder :
      (w : m.Wrapper) (ix_room acct_room : Option ℕ) (commit_at : AccountCommitAt) (gate : Bool)
      (is : List (Input m R))
      → OrderlyRun is (new_coordinator m R w (fresh ix_room) (fresh acct_room) commit_at gate)
      → DeliversInOrder
          (run_inner m R is
            (new_coordinator m R w (fresh ix_room) (fresh acct_room) commit_at gate)).1
  unfolding new_coordinator
  run-DeliversInOrder w ix_room acct_room commit_at gate is o =
      (run_inner-GoesOn is _ o (record {
        valid = new-IsValid commit_at;
        frontiers = new-Frontiers commit_at;
        instructions = fresh-SentUpTo (λ (o : InstructionSlot R). o.slot) ix_room;
        accounts = fresh-SentUpTo (λ (o : AccountSlot R). o.slot) acct_room;
      })).order
