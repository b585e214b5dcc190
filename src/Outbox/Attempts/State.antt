-- ===== src/Outbox/Attempts/State.antt =====
-- engine/src/engine/options/order_outbox.py: the record of an attempt, its file, and the outbox.
use ibkr_strategy_engine.Prelude.{ℕ, String, Option, List}
use ibkr_strategy_engine.Prelude.Result.{Result}
use ibkr_strategy_engine.Prelude.Dict.{Dict}
use ibkr_strategy_engine.Domain.Legs.{StrategyAction, OptionLegIntent}

pub data OutboxState : Type 0 where
  prepared approval_consumed send_intent submission_observed outcome ambiguous : OutboxState
  reconciled aborted : OutboxState

pub data OutboxError : Type 0 where
  unknown_attempt corrupt_attempt duplicate_intent already_terminal quarantined : OutboxError
  physically_touched not_awaiting_reconciliation needs_reconciliation : OutboxError
  write_failed receipt_failed : OutboxError

pub record Attempt : Type 0 where
  pub attempt_id : String
  pub strategy_id : String
  pub action : StrategyAction
  pub structure_digest : String
  pub spec_digest : String
  pub account : String
  pub quantity : ℕ
  pub underlying : String
  pub legs : List OptionLegIntent
  pub approval_id : Option String
  pub session_id : Option String
  pub lease_nonce : Option String
  pub tick_id : Option String
  pub state : OutboxState
  pub broker_order_ref : Option String
  pub observation : Option String
  pub classification : Option String
  pub reason : Option String
  pub reconciliation : Option String

-- A state file: one that cannot be read, or the record in it.
pub data AttemptFile : Type 0 where
  corrupt : AttemptFile
  kept : Attempt → AttemptFile

pub data Event : Type 0 where
  physical_send_intent review_approval_consumed broker_submission_observed recovery_required : Event
  order_outcome tick_aborted broker_reconciliation : Event

pub record Receipt : Type 0 where
  pub event : Event
  pub attempt_id : String
  pub extra : Option String

-- Whether the disk takes a state file, and the receipt after it.
pub data Disk : Type 0 where
  healthy no_write no_receipt : Disk

pub record Outbox : Type 0 where
  pub attempts : Dict AttemptFile
  pub receipts : List Receipt
  pub disk : Disk

abbrev pub Call : Type 0
Call = Result OutboxError Attempt × Outbox
