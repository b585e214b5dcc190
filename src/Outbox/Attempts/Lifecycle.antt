-- ===== src/Outbox/Attempts/Lifecycle.antt =====
-- engine/src/engine/options/order_outbox.py: the life of an attempt. Every call either leaves all state
-- files as they are, or replaces the file of its attempt along an edge of the diagram.
use ibkr_strategy_engine.Prelude.{
  String, Bool, true, false, ◌≡◌, refl, sym, ◌∙◌, ◌⊎◌, inl, inr, Option, none, some, arith,
}
use ibkr_strategy_engine.Prelude.Result.{err}
use ibkr_strategy_engine.Prelude.Dict.{lookup, insert}
use ibkr_strategy_engine.Outbox.Budget.{id_or}
use ibkr_strategy_engine.Outbox.Attempts.{
  OutboxState, OutboxError, Attempt, AttemptFile, corrupt, kept, Event, Disk, healthy, no_write,
  no_receipt, Outbox, Call, save, save_on, on_file, transition_guard, unless, transition,
  is_reconciled, Operation, preparing, approval_consuming, send_intending, observing, quarantining,
  concluding, aborting, reconciling,
}

-- The diagram.
pub data IsOpen : OutboxState → Type 0 where
  prepared_open : IsOpen OutboxState.prepared
  consumed_open : IsOpen OutboxState.approval_consumed
  send_open : IsOpen OutboxState.send_intent
  observed_open : IsOpen OutboxState.submission_observed

infix 40 ◌⟶◌
pub data ◌⟶◌ : OutboxState → OutboxState → Type 0 where
  consume : {a : OutboxState} → IsOpen a → a ⟶ OutboxState.approval_consumed
  send : {a : OutboxState} → IsOpen a → a ⟶ OutboxState.send_intent
  observe : {a : OutboxState} → IsOpen a → a ⟶ OutboxState.submission_observed
  conclude : {a : OutboxState} → IsOpen a → a ⟶ OutboxState.outcome
  quarantine : {a : OutboxState} → IsOpen a → a ⟶ OutboxState.ambiguous
  abort_prepared : OutboxState.prepared ⟶ OutboxState.aborted
  abort_consumed : OutboxState.approval_consumed ⟶ OutboxState.aborted
  reconcile_ambiguous : OutboxState.ambiguous ⟶ OutboxState.reconciled
  reconcile_observed : OutboxState.submission_observed ⟶ OutboxState.reconciled

ruleset edges = (
  consume, send, observe, conclude, quarantine, abort_prepared, abort_consumed, reconcile_ambiguous,
  reconcile_observed, prepared_open, consumed_open, send_open, observed_open,
)

-- The attempt that an operation names.
abbrev pub target : Operation → String
target (preparing c) = id_or c.attempt_id c.fresh
target (approval_consuming id) = id
target (send_intending id _) = id
target (observing id _) = id
target (quarantining id _) = id
target (concluding id _ _) = id
target (aborting id _) = id
target (reconciling id _ _) = id

abbrev pub is_reconciling : Operation → Bool
is_reconciling (reconciling _ _ _) = true
is_reconciling _ = false

-- What a call may do to the state files: nothing, and then it raised; or replace one file.
pub data Effect (op : Operation) (s : Outbox) (r : Call) : Type 0 where
  refused : r.1.attempts ≡ s.attempts → (e : OutboxError) → r.0 ≡ err e → Effect op s r
  created :
      (c : Attempt)
      → lookup (target op) s.attempts ≡ none
      → c.attempt_id ≡ target op
      → c.state ≡ OutboxState.prepared
      → r.1.attempts ≡ insert c.attempt_id (kept c) s.attempts
      → Effect op s r
  moved :
      (b c : Attempt)
      → lookup (target op) s.attempts ≡ some (kept b)
      → c.attempt_id ≡ b.attempt_id
      → b.state ⟶ c.state
      → is_reconciled c.state ≡ is_reconciling op
      → r.1.attempts ≡ insert c.attempt_id (kept c) s.attempts
      → Effect op s r

pub save-Effect :
    (d : Disk) (s : Outbox) (c : Attempt) (event : Event) (extra : Option String)
    → let r = save_on d s c event extra in
      ((r.1.attempts ≡ s.attempts) × (r.0 ≡ err OutboxError.write_failed))
      ⊎ (r.1.attempts ≡ insert c.attempt_id (kept c) s.attempts)
save-Effect healthy s c event extra = inr refl
save-Effect no_receipt s c event extra = inr refl
save-Effect no_write s c event extra = inl (refl, refl)

-- A transition is guarded to start at an open state.
guard-IsOpen :
    (to a : OutboxState) → is_reconciled to ≡ false → transition_guard a to ≡ none → IsOpen a
unfolding transition_guard
guard-IsOpen to OutboxState.prepared h g = prepared_open
guard-IsOpen to OutboxState.approval_consumed h g = consumed_open
guard-IsOpen to OutboxState.send_intent h g = send_open
guard-IsOpen to OutboxState.submission_observed h g = observed_open
guard-IsOpen to OutboxState.outcome h g = absurd (ground arith)
guard-IsOpen to OutboxState.ambiguous h g = absurd (ground arith)
guard-IsOpen to OutboxState.reconciled h g = absurd (ground arith)
guard-IsOpen to OutboxState.aborted h g = absurd (ground arith)

-- A call that saved `c` over `b`.
pub saved :
    (op : Operation) (s : Outbox) (b c : Attempt) (event : Event) (extra : Option String)
    → lookup (target op) s.attempts ≡ some (kept b)
    → c.attempt_id ≡ b.attempt_id
    → b.state ⟶ c.state
    → is_reconciled c.state ≡ is_reconciling op
    → Effect op s (save s c event extra)
unfolding save
saved op s b c event extra found same edge only = elim (save-Effect s.disk s c event extra) [
  | inl (unchanged, failed) ↦ Effect.refused unchanged OutboxError.write_failed failed
  | inr written ↦ Effect.moved b c found same edge only written
]

module _ (op : Operation) (to : OutboxState) (event : Event) (fields : Attempt → Attempt)
    (s : Outbox) (edge : (a : OutboxState) → IsOpen a → a ⟶ to) (plain : is_reconciled to ≡ false)
    (other : is_reconciling op ≡ false)
    (same : (a : Attempt) → (fields a).attempt_id ≡ a.attempt_id) where
  guarded :
      (b : Attempt) (g : Option OutboxError)
      → lookup (target op) s.attempts ≡ some (kept b)
      → transition_guard b.state to ≡ g
      → Effect op s (unless g s (save s (record (fields b) { state = to }) event none))
  guarded b (some e) found h = Effect.refused refl e refl
  guarded b none found h =
      saved op s b (record (fields b) { state = to }) event none found (same b)
        (edge b.state (guard-IsOpen to b.state plain h)) (plain ∙ sym other)

  on_file-Effect :
      (f : Option AttemptFile)
      → lookup (target op) s.attempts ≡ f
      → Effect op s (
          on_file s f (λ a.
            unless
              (transition_guard a.state to)
              s
              (save s (record (fields a) { state = to }) event none)))
  on_file-Effect none h = Effect.refused refl OutboxError.unknown_attempt refl
  on_file-Effect (some corrupt) h = Effect.refused refl OutboxError.corrupt_attempt refl
  on_file-Effect (some (kept b)) h = guarded b (transition_guard b.state to) h refl

  pub transition-Effect : Effect op s (transition (target op) to event fields s)
  unfolding transition
  transition-Effect = on_file-Effect (lookup (target op) s.attempts) refl
