-- ===== src/Receipts/Recording.antt =====
-- engine/src/engine/options/execution_outbox.py: the methods of `ExecutionOutbox` that record what became of
-- a send.
use ibkr_strategy_engine.Prelude.{
  ◌^◌, ℕ, ◌==◌, not, String, Bool, true, false, Option, none, some, [], ◌∷◌, if◌then◌else◌,
}
use ibkr_strategy_engine.Prelude.Dict.{Dict}
use ibkr_strategy_engine.Prelude.Result.{Result, ok, err}
use ibkr_strategy_engine.Receipts.{
  ReceiptKind, Payload, Journal, AppendCall, Appended, append, append_all,
}
use ibkr_strategy_engine.Receipts.Intents.{
  OutboxState, ExecutionIntent, IntentError, load, Called, Calls,
}

-- What other processes append between the two reads of a method, before its append, and after it.
pub record Others : Type 0 where
  pub between_reads : Calls
  pub before_append : Calls
  pub after_append : Calls

-- A method: the states in which it has nothing to do, the states that it moves on, and its receipt.
pub record Move : Type 0 where
  pub is_done : OutboxState → Bool
  pub is_from : OutboxState → Bool
  pub kind : ReceiptKind
  pub key : String
  pub payload : Payload
  pub at : ℕ
  pub fresh : String

abbrev pub call_of : Move → String → ℕ → AppendCall
call_of m saga version = record {
  kind = m.kind;
  saga_id = saga;
  at = m.at;
  payload = m.payload;
  idempotency_key = m.key;
  expected_version = some version;
  fresh = m.fresh;
}

-- The append, and the read that gives what is returned.
abbrev pub reload : String → Calls → Appended → Called
reload saga others (err e, j) = (err (IntentError.receipt e), j)
reload saga others (ok _, j) = (load saga (append_all others j), append_all others j)

-- `_require_intent`, the test of the state and the append.
abbrev pub move_on :
    Move → ExecutionIntent → Others → Journal → Result IntentError (Option ExecutionIntent) → Called
move_on m intent o j (err e) = (err e, j)
move_on m intent o j (ok none) = (err IntentError.not_durable, j)
move_on m intent o j (ok (some current)) =
    if not (current.version == intent.version)
    then (err IntentError.stale_intent, j)
    else if not (m.is_from current.state)
    then (err IntentError.wrong_state, j)
    else reload intent.saga_id o.after_append
        (append (call_of m intent.saga_id current.version) (append_all o.before_append j))

-- `existing is not None and existing.state in (...)`
abbrev pub found_done : Move → Option ExecutionIntent → Bool
found_done m none = false
found_done m (some existing) = m.is_done existing.state

abbrev pub first_read :
    Move → ExecutionIntent → Others → Journal → Result IntentError (Option ExecutionIntent) → Called
first_read m intent o j (err e) = (err e, j)
first_read m intent o j (ok existing) =
    if found_done m existing
    then (ok existing, j)
    else move_on m intent o (append_all o.between_reads j)
        (load intent.saga_id (append_all o.between_reads j))

unfoldable pub record_move : Move → ExecutionIntent → Others → Journal → Called
record_move m intent o j = first_read m intent o j (load intent.saga_id j)

abbrev pub is_consumed : OutboxState → Bool
is_consumed OutboxState.approval_consumed = true
is_consumed OutboxState.broker_submission_observed = true
is_consumed OutboxState.order_outcome = true
is_consumed _ = false

abbrev pub is_observed : OutboxState → Bool
is_observed OutboxState.broker_submission_observed = true
is_observed OutboxState.order_outcome = true
is_observed _ = false

abbrev pub is_state : OutboxState → OutboxState → Bool
is_state OutboxState.send_intent OutboxState.send_intent = true
is_state OutboxState.approval_consumed OutboxState.approval_consumed = true
is_state OutboxState.broker_submission_observed OutboxState.broker_submission_observed = true
is_state OutboxState.order_outcome OutboxState.order_outcome = true
is_state OutboxState.recovery_required OutboxState.recovery_required = true
is_state OutboxState.recovery_cleared OutboxState.recovery_cleared = true
is_state _ _ = false

abbrev pub consumption : ExecutionIntent → ℕ → String → Move
consumption intent at fresh = record {
  is_done = is_consumed;
  is_from = is_state OutboxState.send_intent;
  kind = ReceiptKind.review_approval_consumed;
  key = "approval-consumed:" ^ intent.saga_id;
  payload =
      Payload.details (
        ("approval_id", intent.facts.approval_id) ∷ ("spec_digest", intent.facts.spec_digest) ∷ []);
  at = at;
  fresh = fresh;
}

unfoldable pub record_approval_consumed : ExecutionIntent → ℕ → String → Others → Journal → Called
unfolding record_move
record_approval_consumed intent at fresh = record_move (consumption intent at fresh) intent

abbrev pub observation : ExecutionIntent → String → ℕ → String → Move
observation intent broker_order_id at fresh = record {
  is_done = is_observed;
  is_from = is_state OutboxState.approval_consumed;
  kind = ReceiptKind.broker_submission_observed;
  key = "broker-submission:" ^ intent.saga_id ^ ":" ^ broker_order_id;
  payload = Payload.details (("broker_order_id", broker_order_id) ∷ []);
  at = at;
  fresh = fresh;
}

unfoldable pub record_broker_submission_observed :
    ExecutionIntent → String → ℕ → String → Others → Journal → Called
unfolding record_move
record_broker_submission_observed intent broker_order_id at fresh =
    record_move (observation intent broker_order_id at fresh) intent

abbrev pub outcome_move : ExecutionIntent → String → String → ℕ → String → Move
outcome_move intent outcome detail at fresh = record {
  is_done = is_state OutboxState.order_outcome;
  is_from = is_state OutboxState.broker_submission_observed;
  kind = ReceiptKind.order_outcome;
  key = "order-outcome:" ^ intent.saga_id;
  payload = Payload.details (("outcome", outcome) ∷ ("detail", detail) ∷ []);
  at = at;
  fresh = fresh;
}

unfoldable pub record_order_outcome :
    ExecutionIntent → String → String → ℕ → String → Others → Journal → Called
unfolding record_move
record_order_outcome intent outcome detail at fresh =
    record_move (outcome_move intent outcome detail at fresh) intent

abbrev pub clearance : ExecutionIntent → Dict String → ℕ → String → Move
clearance intent reconciliation at fresh = record {
  is_done = is_state OutboxState.recovery_cleared;
  is_from = is_state OutboxState.recovery_required;
  kind = ReceiptKind.recovery_cleared;
  key = "recovery-cleared:" ^ intent.saga_id;
  payload = Payload.details reconciliation;
  at = at;
  fresh = fresh;
}

unfoldable pub clear_recovery :
    ExecutionIntent → Dict String → ℕ → String → Others → Journal → Called
unfolding record_move
clear_recovery intent reconciliation at fresh =
    record_move (clearance intent reconciliation at fresh) intent
