-- ===== src/Management.antt =====
-- engine/src/engine/options/lifecycle.py: whether an open position is held, closed or rolled, and the order
-- that carries the decision out. A fraction and a broker quantity are in ten-thousandths. A filled credit
-- is in a quantum of its own, and every other price in ten-thousandths of that quantum, so the target debit is
-- exact. A time is a number of microseconds.
pub mod Acts
pub mod Exits
mod Examples
use ibkr_strategy_engine.Prelude.{
  ℕ, ◌-◌, ◌*◌, ◌/◌, ◌==◌, ltb, leb, ℤ, pos, ◌-ℤ◌, leb_ℤ, ltb_ℤ, String, Bool, true, false, not,
  str_eq, Option, none, some, if◌then◌else◌,
}
use ibkr_strategy_engine.Prelude.Result.{Result, ok, err, ◌>>=◌, ◌>>◌, refuse_if}
use ibkr_strategy_engine.Domain.Legs.{Refusal, OptionStrategyIntent}
use ibkr_strategy_engine.Domain.Closing.{CloseRequest, closing_intent}
use ibkr_strategy_engine.Governor.Policy.{scale}

pub data ManagementAction : Type 0 where
  hold close_profit_target close_dte roll : ManagementAction

-- The codes of `ManagementReason` and `LifecycleRefusalReason`.
pub data ReasonCode : Type 0 where
  profit_target_reached management_dte_reached management_dte_roll : ReasonCode
  position_not_open no_mark_available mark_not_live mark_stale profit_target_not_reached :
      ReasonCode

pub data PositionState : Type 0 where
  opening is_open closing closed rolled uncertain : PositionState

abbrev pub is_manageable : PositionState → Bool
is_manageable PositionState.is_open = true
is_manageable _ = false

-- The fields of `OpenPosition` that a decision and its order read.
pub record OpenPosition : Type 0 where
  pub strategy_id : String
  pub intent : OptionStrategyIntent
  pub state : PositionState
  pub filled_credit : ℕ
  pub filled_quantity : ℕ

pub record PositionMark : Type 0 where
  pub debit_to_close : ℕ
  pub as_of : ℤ
  pub is_live : Bool

-- The fields of `RiskPolicy` on the management of positions.
pub record ManagementPolicy : Type 0 where
  pub profit_target_fraction : ℕ
  pub management_dte : ℤ
  pub roll_at_management_dte : Bool
  pub quote_maximum_age : ℤ

pub record ManagementDecision : Type 0 where
  pub action : ManagementAction
  pub position_id : String
  pub reason_code : ReasonCode
  pub target_debit : Option ℕ

-- `int(self.filled_quantity)` where something filled, else the intended quantity.
abbrev pub manageable_quantity : OpenPosition → ℕ
manageable_quantity p =
    if ltb 0 p.filled_quantity then p.filled_quantity / scale else p.intent.quantity

abbrev pub dte : OpenPosition → ℕ → ℤ
dte p today = pos p.intent.expiration -ℤ pos today

abbrev pub profit_target_debit : ℕ → ℕ → ℕ
profit_target_debit filled_credit fraction = filled_credit * (scale - fraction)

-- `_mark_refusal`
abbrev pub mark_refusal : Option PositionMark → ℤ → ManagementPolicy → Option ReasonCode
mark_refusal none now policy = some ReasonCode.no_mark_available
mark_refusal (some mark) now policy =
    if not mark.is_live
    then some ReasonCode.mark_not_live
    else if ltb_ℤ policy.quote_maximum_age (now -ℤ mark.as_of)
    then some ReasonCode.mark_stale
    else none

abbrev pub quiet : OpenPosition → ManagementAction → ReasonCode → ManagementDecision
quiet p action code = record {
  action = action;
  position_id = p.strategy_id;
  reason_code = code;
  target_debit = none;
}

-- A decision on a target that is not positive is refused by `ManagementDecision.__post_init__`.
abbrev pub take_profit : OpenPosition → ℕ → Option ManagementDecision
take_profit p target =
    if target == 0
    then none
    else some (record {
      action = ManagementAction.close_profit_target;
      position_id = p.strategy_id;
      reason_code = ReasonCode.profit_target_reached;
      target_debit = some target;
    })

-- Whether a mark that may be used is at or below the target.
abbrev pub reaches_target : Option ReasonCode → Option PositionMark → ℕ → Bool
reaches_target none (some mark) target = leb mark.debit_to_close target
reaches_target _ _ target = false

abbrev pub held_code : Option ReasonCode → Option PositionMark → ReasonCode
held_code (some reason) mark = reason
held_code none none = ReasonCode.no_mark_available
held_code none (some mark) = ReasonCode.profit_target_not_reached

-- The rule of the calendar, and what is left.
abbrev pub by_calendar :
    OpenPosition
    → ManagementPolicy
    → Option PositionMark
    → Option ReasonCode
    → ℕ
    → ManagementDecision
by_calendar p policy mark refusal today =
    if leb_ℤ (dte p today) policy.management_dte
    then if policy.roll_at_management_dte
      then quiet p ManagementAction.roll ReasonCode.management_dte_roll
      else quiet p ManagementAction.close_dte ReasonCode.management_dte_reached
    else quiet p ManagementAction.hold (held_code refusal mark)

unfoldable pub decide_management_action :
    OpenPosition → ManagementPolicy → Option PositionMark → ℤ → ℕ → Option ManagementDecision
decide_management_action p policy mark now today =
    let target = profit_target_debit p.filled_credit policy.profit_target_fraction in
    let refusal = mark_refusal mark now policy in
    if not (is_manageable p.state)
    then some (quiet p ManagementAction.hold ReasonCode.position_not_open)
    else if reaches_target refusal mark target
    then take_profit p target
    else some (by_calendar p policy mark refusal today)

abbrev pub acts : ManagementDecision → Bool
acts d = elim d.action [ ManagementAction.hold ↦ false | _ ↦ true ]

pub data CloseError : Type 0 where
  no_order wrong_position not_open quantity_not_positive quantity_not_held no_price : CloseError
  strategy : Refusal → CloseError

abbrev pub price_or : Option ℤ → Option ℕ → Option ℤ
price_or (some limit_price) target = some limit_price
price_or none none = none
price_or none (some target) = some (pos target)

abbrev pub from_strategy :
    Result Refusal OptionStrategyIntent → Result CloseError OptionStrategyIntent
from_strategy (err e) = err (CloseError.strategy e)
from_strategy (ok t) = ok t

-- The order at a price, from the intent that the position holds.
abbrev pub close_at :
    OpenPosition → CloseRequest → Option ℤ → Result CloseError OptionStrategyIntent
close_at p r none = err CloseError.no_price
close_at p r (some price) =
    from_strategy (closing_intent p.intent (record r { limit_price = price }))

-- `r` holds the arguments but for the price, which is `limit_price`.
unfoldable pub closing_intent_for :
    ManagementDecision
    → OpenPosition
    → CloseRequest
    → Option ℤ
    → Result CloseError OptionStrategyIntent
closing_intent_for d p r limit_price = do
  refuse_if (not (acts d)) CloseError.no_order
  refuse_if (not (str_eq d.position_id p.strategy_id)) CloseError.wrong_position
  refuse_if (not (is_manageable p.state)) CloseError.not_open
  refuse_if (r.quantity == 0) CloseError.quantity_not_positive
  refuse_if (ltb (manageable_quantity p) r.quantity) CloseError.quantity_not_held
  close_at p r (price_or limit_price d.target_debit)
