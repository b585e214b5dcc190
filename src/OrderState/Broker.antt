-- ===== src/OrderState/Broker.antt =====
-- engine/src/engine/options/orderstate.py: the states of a transmitted order, and the reading of the
-- broker's numbers. A `Decimal` is an integer number of ten-thousandths.
use ibkr_strategy_engine.Prelude.{ℤ, Bool, true, false, Option, none, some}

pub data OrderLifecycleState : Type 0 where
  submitted acknowledged partially_filled filled cancelled rejected inactive : OrderLifecycleState
  timed_out unknown : OrderLifecycleState

-- A value that the broker's object holds where a number is expected.
pub data BrokerField : Type 0 where
  absent junk non_finite : BrokerField
  number : ℤ → BrokerField

-- `_decimal(value, None)`: never raises on broker junk.
abbrev pub decimal : BrokerField → Option ℤ
decimal (BrokerField.number d) = some d
decimal _ = none

unfoldable pub is_terminal : OrderLifecycleState → Bool
is_terminal OrderLifecycleState.filled = true
is_terminal OrderLifecycleState.cancelled = true
is_terminal OrderLifecycleState.rejected = true
is_terminal OrderLifecycleState.inactive = true
is_terminal _ = false

unfoldable pub is_working : OrderLifecycleState → Bool
is_working OrderLifecycleState.submitted = true
is_working OrderLifecycleState.acknowledged = true
is_working OrderLifecycleState.partially_filled = true
is_working _ = false

unfoldable pub is_uncertain : OrderLifecycleState → Bool
is_uncertain OrderLifecycleState.timed_out = true
is_uncertain OrderLifecycleState.unknown = true
is_uncertain _ = false
