-- ===== src/Outbox/Attempts/Effects.antt =====
-- engine/src/engine/options/order_outbox.py: the effect of each operation on the state files.
use ibkr_strategy_engine.Prelude.{
  String, false, ◌≡◌, refl, sym, subst, inl, inr, Option, none, some, is_some, upper, arith,
  if◌then◌else◌, Bool-cases,
}
use ibkr_strategy_engine.Prelude.Result.{err}
use ibkr_strategy_engine.Prelude.Dict.{lookup}
use ibkr_strategy_engine.Outbox.Budget.{id_or}
use ibkr_strategy_engine.Outbox.Attempts.{
  OutboxState, OutboxError, Attempt, AttemptFile, corrupt, kept, Event, Outbox, save, PrepareCall,
  prepared_record, prepare, on_file, is_reconciled, outcome_state, is_unknown, can_abort,
  can_reconcile, abort, reconcile, Operation, preparing, approval_consuming, send_intending,
  observing, quarantining, concluding, aborting, reconciling, run,
}
use ibkr_strategy_engine.Outbox.Attempts.Lifecycle.{
  IsOpen, ◌⟶◌, consume, send, observe, conclude, quarantine, abort_prepared, abort_consumed,
  reconcile_ambiguous, reconcile_observed, Effect, save-Effect, saved, transition-Effect,
}

outcome_state-edge :
    (classification : String) (a : OutboxState) → IsOpen a → a ⟶ outcome_state classification
outcome_state-edge classification a o = elim (Bool-cases (is_unknown classification)) [
  | inl h ↦ rw h (quarantine o)
  | inr h ↦ rw h (conclude o)
]

outcome_state_plain :
    (classification : String) → is_reconciled (outcome_state classification) ≡ false
outcome_state_plain classification = ground arith

abort-Effect : (s : Outbox) (id reason : String) → Effect (aborting id reason) s (abort id reason s)
unfolding abort
abort-Effect s id reason = by_file (lookup id s.attempts) refl
  where
    by_state :
        (b : Attempt) (k : OutboxState)
        → b.state ≡ k
        → lookup id s.attempts ≡ some (kept b)
        → Effect (aborting id reason) s (
            if can_abort k
            then save s
                (record b { state = OutboxState.aborted; reason = some reason })
                Event.tick_aborted
                (some reason)
            else (err OutboxError.physically_touched, s))
    by_state b OutboxState.prepared k found =
        saved _ s b _ _ _ found refl
          (subst (λ (x : OutboxState). x ⟶ OutboxState.aborted) (sym k) abort_prepared) refl
    by_state b OutboxState.approval_consumed k found =
        saved _ s b _ _ _ found refl
          (subst (λ (x : OutboxState). x ⟶ OutboxState.aborted) (sym k) abort_consumed) refl
    by_state b _ k found = Effect.refused refl OutboxError.physically_touched refl

    by_file :
        (f : Option AttemptFile)
        → lookup id s.attempts ≡ f
        → Effect (aborting id reason) s (
            on_file s f (λ a.
              if can_abort a.state
              then save s
                  (record a { state = OutboxState.aborted; reason = some reason })
                  Event.tick_aborted
                  (some reason)
              else (err OutboxError.physically_touched, s)))
    by_file none h = Effect.refused refl OutboxError.unknown_attempt refl
    by_file (some corrupt) h = Effect.refused refl OutboxError.corrupt_attempt refl
    by_file (some (kept b)) h = by_state b b.state refl h

reconcile-Effect :
    (s : Outbox) (id result evidence : String)
    → Effect (reconciling id result evidence) s (reconcile id result evidence s)
unfolding reconcile
reconcile-Effect s id result evidence = by_file (lookup id s.attempts) refl
  where
    settle : Attempt → Attempt
    settle b = record b {
      state = OutboxState.reconciled;
      classification = some (upper result);
      reconciliation = some evidence;
    }

    by_state :
        (b : Attempt) (k : OutboxState)
        → b.state ≡ k
        → lookup id s.attempts ≡ some (kept b)
        → Effect (reconciling id result evidence) s (
            if can_reconcile k
            then save s (settle b) Event.broker_reconciliation (some (upper result))
            else (err OutboxError.not_awaiting_reconciliation, s))
    by_state b OutboxState.ambiguous k found =
        saved _ s b _ _ _ found refl
          (subst (λ (x : OutboxState). x ⟶ OutboxState.reconciled) (sym k) reconcile_ambiguous) refl
    by_state b OutboxState.submission_observed k found =
        saved _ s b _ _ _ found refl
          (subst (λ (x : OutboxState). x ⟶ OutboxState.reconciled) (sym k) reconcile_observed) refl
    by_state b _ k found = Effect.refused refl OutboxError.not_awaiting_reconciliation refl

    by_file :
        (f : Option AttemptFile)
        → lookup id s.attempts ≡ f
        → Effect (reconciling id result evidence) s (
            on_file s f (λ a.
              if can_reconcile a.state
              then save s (settle a) Event.broker_reconciliation (some (upper result))
              else (err OutboxError.not_awaiting_reconciliation, s)))
    by_file none h = Effect.refused refl OutboxError.unknown_attempt refl
    by_file (some corrupt) h = Effect.refused refl OutboxError.corrupt_attempt refl
    by_file (some (kept b)) h = by_state b b.state refl h

prepare-Effect : (s : Outbox) (c : PrepareCall) → Effect (preparing c) s (prepare c s)
unfolding prepare save
prepare-Effect s c = by_file (lookup (id_or c.attempt_id c.fresh) s.attempts) refl
  where
    by_file :
        (f : Option AttemptFile)
        → lookup (id_or c.attempt_id c.fresh) s.attempts ≡ f
        → Effect (preparing c) s (
            if is_some f
            then (err OutboxError.duplicate_intent, s)
            else save s (prepared_record c) Event.physical_send_intent none)
    by_file (some a) h = Effect.refused refl OutboxError.duplicate_intent refl
    by_file none h =
        elim (save-Effect s.disk s (prepared_record c) Event.physical_send_intent none) [
          | inl (unchanged, failed) ↦ Effect.refused unchanged OutboxError.write_failed failed
          | inr written ↦ Effect.created (prepared_record c) h refl refl written
        ]

-- Every operation, in every state of the outbox and of the disk.
pub run-Effect : (op : Operation) (s : Outbox) → Effect op s (run op s)
unfolding run
run-Effect (preparing c) s = prepare-Effect s c
run-Effect (approval_consuming id) s =
    transition-Effect (approval_consuming id) _ _ (λ a. a) s (λ a o. consume o) refl refl
      (λ a. refl)
run-Effect (send_intending id order_ref) s =
    transition-Effect (send_intending id order_ref) _ _
      (λ a. record a { broker_order_ref = some order_ref }) s (λ a o. send o) refl refl (λ a. refl)
run-Effect (observing id observation) s =
    transition-Effect (observing id observation) _ _
      (λ a. record a { observation = some observation }) s (λ a o. observe o) refl refl (λ a. refl)
run-Effect (concluding id classification observation) s =
    transition-Effect (concluding id classification observation) _ _
      (λ a. record a {
        classification = some (upper classification);
        observation = some observation;
      })
      s (outcome_state-edge classification) (outcome_state_plain classification) refl (λ a. refl)
run-Effect (quarantining id reason) s =
    transition-Effect (quarantining id reason) _ _ (λ a. record a { reason = some reason }) s
      (λ a o. quarantine o) refl refl (λ a. refl)
run-Effect (aborting id reason) s = abort-Effect s id reason
run-Effect (reconciling id result evidence) s = reconcile-Effect s id result evidence
