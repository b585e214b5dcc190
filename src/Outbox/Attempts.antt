-- ===== src/Outbox/Attempts.antt =====
-- engine/src/engine/options/order_outbox.py: `ExecutionOutbox`, the durable state of every physical
-- opening attempt. Timestamps are left out: no decision reads them. JSON payloads that the outbox only
-- carries (an observation, the evidence) are texts.
mod State
pub mod Lifecycle
pub mod Effects
pub mod Quarantine
pub mod Blocking
pub mod Sends
pub mod Clear
pub use State.*
use ibkr_strategy_engine.Prelude.{
  String, Bool, true, false, str_eq, Option, none, some, List, [], ◌∷◌, ◌++◌, is_some, strip, upper,
  if◌then◌else◌,
}
use ibkr_strategy_engine.Prelude.Result.{ok, err}
use ibkr_strategy_engine.Prelude.Dict.{lookup, insert}
use ibkr_strategy_engine.Domain.Legs.{OptionLegIntent, OptionStrategyIntent}
use ibkr_strategy_engine.Outbox.Budget.{id_or}

-- `_save`: the state file is replaced, then the receipt is appended.
abbrev pub save_on : Disk → Outbox → Attempt → Event → Option String → Call
save_on no_write s a event extra = (err OutboxError.write_failed, s)
save_on no_receipt s a event extra = (
  err OutboxError.receipt_failed,
  record s { attempts = insert a.attempt_id (kept a) s.attempts },
)
save_on healthy s a event extra = (
  ok a,
  record s {
    attempts = insert a.attempt_id (kept a) s.attempts;
    receipts =
        s.receipts ++ record { event = event; attempt_id = a.attempt_id; extra = extra } ∷ [];
  },
)

unfoldable pub save : Outbox → Attempt → Event → Option String → Call
save s a event extra = save_on s.disk s a event extra

-- `_leg_record`
abbrev leg_record : OptionLegIntent → OptionLegIntent
leg_record leg = record leg {
  symbol = upper (strip leg.symbol);
  exchange = upper (strip leg.exchange);
}

pub leg_records : List OptionLegIntent → List OptionLegIntent
leg_records [] = []
leg_records (leg ∷ legs) = leg_record leg ∷ leg_records legs

-- The arguments of `prepare`; `fresh` is the `uuid4().hex` that it draws.
pub record PrepareCall : Type 0 where
  pub intent : OptionStrategyIntent
  pub structure_digest : String
  pub spec_digest : String
  pub account : String
  pub approval_id : Option String
  pub attempt_id : Option String
  pub session_id : Option String
  pub lease_nonce : Option String
  pub tick_id : Option String
  pub fresh : String

abbrev pub prepared_record : PrepareCall → Attempt
prepared_record c = record {
  attempt_id = id_or c.attempt_id c.fresh;
  strategy_id = c.intent.strategy_id;
  action = c.intent.strategy_action;
  structure_digest = c.structure_digest;
  spec_digest = c.spec_digest;
  account = c.account;
  quantity = c.intent.quantity;
  underlying = upper (strip c.intent.underlying);
  legs = leg_records c.intent.legs;
  approval_id = c.approval_id;
  session_id = c.session_id;
  lease_nonce = c.lease_nonce;
  tick_id = c.tick_id;
  state = OutboxState.prepared;
  broker_order_ref = none;
  observation = none;
  classification = none;
  reason = none;
  reconciliation = none;
}

pub prepare : PrepareCall → Outbox → Call
unfolding leg_records
prepare c s =
    if is_some (lookup (id_or c.attempt_id c.fresh) s.attempts)
    then (err OutboxError.duplicate_intent, s)
    else save s (prepared_record c) Event.physical_send_intent none

-- `_load_attempt`, and what is done with the record.
abbrev pub on_file : Outbox → Option AttemptFile → (Attempt → Call) → Call
on_file s none f = (err OutboxError.unknown_attempt, s)
on_file s (some corrupt) f = (err OutboxError.corrupt_attempt, s)
on_file s (some (kept a)) f = f a

abbrev pub is_reconciled : OutboxState → Bool
is_reconciled OutboxState.reconciled = true
is_reconciled _ = false

-- The guards of `_transition`, from the current state to the new one.
unfoldable pub transition_guard : OutboxState → OutboxState → Option OutboxError
transition_guard OutboxState.outcome to = some OutboxError.already_terminal
transition_guard OutboxState.reconciled to = some OutboxError.already_terminal
transition_guard OutboxState.aborted to = some OutboxError.already_terminal
transition_guard OutboxState.ambiguous to =
    if is_reconciled to then none else some OutboxError.quarantined
transition_guard _ to = none

abbrev pub unless : Option OutboxError → Outbox → Call → Call
unless (some e) s k = (err e, s)
unless none s k = k

-- `_transition`; `fields` is the update of the record.
unfoldable pub transition : String → OutboxState → Event → (Attempt → Attempt) → Outbox → Call
unfolding transition_guard
transition attempt_id state event fields s = on_file s (lookup attempt_id s.attempts) (λ a.
    unless (transition_guard a.state state) s
      (save s (record (fields a) { state = state }) event none))

-- `outcome`: an UNKNOWN classification is quarantined.
abbrev pub is_unknown : String → Bool
is_unknown classification = str_eq (upper classification) "UNKNOWN"

abbrev pub outcome_state : String → OutboxState
outcome_state classification =
    if is_unknown classification then OutboxState.ambiguous else OutboxState.outcome

abbrev pub outcome_event : String → Event
outcome_event classification =
    if is_unknown classification then Event.recovery_required else Event.order_outcome

abbrev pub can_abort : OutboxState → Bool
can_abort OutboxState.prepared = true
can_abort OutboxState.approval_consumed = true
can_abort _ = false

abbrev pub can_reconcile : OutboxState → Bool
can_reconcile OutboxState.ambiguous = true
can_reconcile OutboxState.submission_observed = true
can_reconcile _ = false

pub abort : String → String → Outbox → Call
abort attempt_id reason s = on_file s (lookup attempt_id s.attempts) (λ a.
    if can_abort a.state
    then save s (record a { state = OutboxState.aborted; reason = some reason }) Event.tick_aborted
        (some reason)
    else (err OutboxError.physically_touched, s))

pub reconcile : String → String → String → Outbox → Call
reconcile attempt_id result evidence s = on_file s (lookup attempt_id s.attempts) (λ a.
    if can_reconcile a.state
    then save s
        (record a {
          state = OutboxState.reconciled;
          classification = some (upper result);
          reconciliation = some evidence;
        })
        Event.broker_reconciliation (some (upper result))
    else (err OutboxError.not_awaiting_reconciliation, s))

-- The methods that change the outbox.
pub data Operation : Type 0 where
  preparing : PrepareCall → Operation
  approval_consuming : (attempt_id : String) → Operation
  send_intending observing quarantining : (attempt_id argument : String) → Operation
  concluding : (attempt_id classification observation : String) → Operation
  aborting : (attempt_id reason : String) → Operation
  reconciling : (attempt_id result evidence : String) → Operation

unfoldable pub run : Operation → Outbox → Call
unfolding prepare transition abort reconcile save
run (preparing c) = prepare c
run (approval_consuming id) =
    transition id OutboxState.approval_consumed Event.review_approval_consumed (λ a. a)
run (send_intending id order_ref) =
    transition id OutboxState.send_intent Event.physical_send_intent
      (λ a. record a { broker_order_ref = some order_ref })
run (observing id observation) =
    transition id OutboxState.submission_observed Event.broker_submission_observed
      (λ a. record a { observation = some observation })
run (concluding id classification observation) =
    transition id (outcome_state classification) (outcome_event classification) (λ a. record a {
      classification = some (upper classification);
      observation = some observation;
    })
run (quarantining id reason) =
    transition id OutboxState.ambiguous Event.recovery_required
      (λ a. record a { reason = some reason })
run (aborting id reason) = abort id reason
run (reconciling id result evidence) = reconcile id result evidence
