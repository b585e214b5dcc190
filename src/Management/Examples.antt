-- ===== src/Management/Examples.antt =====
-- engine/src/engine/options/lifecycle.py: a put credit spread of which one of two contracts filled.
use ibkr_strategy_engine.Prelude.{
  ◌≡◌, ◌↔◌, ◌⊎◌, ◌≤ℤ◌, arith, refl, pos, none, some, true, false, ◌-ℤ◌, ◌*ℤ◌, strip, upper,
}
use ibkr_strategy_engine.Prelude.Result.{err}
use ibkr_strategy_engine.Domain.Legs.{make_leg, sole, inverted}
use ibkr_strategy_engine.Domain.Loss.{widest_wing, compute_maximum_loss_per_contract}
use ibkr_strategy_engine.Domain.Checks.{
  check_scalars, distinct, con_ids, check_legs_are_coherent, check_vertical, check_shape,
  check_strike_ordering, check_lifecycle, check_every_short_is_covered, check_maximum_loss,
  check_opening, make_intent,
}
use ibkr_strategy_engine.Domain.Closing.{CloseRequest, invert_all, closing_intent}
use ibkr_strategy_engine.Domain.Closable.{close_of}
use ibkr_strategy_engine.Domain.Examples.{spread}
use ibkr_strategy_engine.Management.{
  ManagementAction, ReasonCode, PositionState, OpenPosition, PositionMark, ManagementPolicy,
  ManagementDecision, quiet, decide_management_action, acts, CloseError, closing_intent_for,
}
use ibkr_strategy_engine.Management.Acts.{HasReached, decide_acts_iff}
use ibkr_strategy_engine.Management.Exits.{IsExit, closing_intent_for-IsExit}

abbrev position : OpenPosition
position = record {
  strategy_id = "a1";
  intent = spread;
  state = PositionState.is_open;
  filled_credit = 4;
  filled_quantity = 10_000;
}

abbrev policy : ManagementPolicy
policy = record {
  profit_target_fraction = 5_000;
  management_dte = pos 21;
  roll_at_management_dte = false;
  quote_maximum_age = pos 10_000_000;
}

abbrev mark : PositionMark
mark = record { debit_to_close = 20_000; as_of = pos 100; is_live = true }

abbrev profit : ManagementDecision
profit = record {
  action = ManagementAction.close_profit_target;
  position_id = "a1";
  reason_code = ReasonCode.profit_target_reached;
  target_debit = some 20_000;
}

abbrev request : CloseRequest
request = record {
  strategy_id = "b2";
  limit_price = pos 0;
  created_at_aware = true;
  configuration_version = "v1";
  quantity = 1;
}

profit_test : decide_management_action position policy (some mark) (pos 200) 738_900 ≡ some profit
unfolding decide_management_action ◌-ℤ◌
profit_test = refl

-- On the last days a feed that is down does not keep the position.
blind_test :
    decide_management_action position policy none (pos 200) 738_990
    ≡ some (quiet position ManagementAction.close_dte ReasonCode.management_dte_reached)
unfolding decide_management_action ◌-ℤ◌
blind_test = refl

oversized_test :
    closing_intent_for profit position (record request { quantity = 2 }) none
    ≡ err CloseError.quantity_not_held
unfolding closing_intent_for
oversized_test = refl

-- A mark that is one second too old takes no profit.
stale_test :
    decide_management_action position policy (some mark) (pos 11_000_100) 738_900
    ≡ some (quiet position ManagementAction.hold ReasonCode.mark_stale)
unfolding decide_management_action ◌-ℤ◌
stale_test = refl

decide_acts_iff_example : (acts profit ≡ true) ↔ (
    (position.state ≡ PositionState.is_open)
    × (((m : PositionMark) × (some mark ≡ some m) × HasReached position policy (pos 200) m)
        ⊎ (pos spread.expiration -ℤ pos 738_900 ≤ℤ pos 21)))
unfolding decide_management_action ◌-ℤ◌
decide_acts_iff_example =
    decide_acts_iff position policy (some mark) (pos 200) 738_900 profit (omega arith) refl

closing_intent_for-IsExit_example :
    IsExit profit position request none
      (close_of spread (record request { limit_price = pos 20_000 }))
unfolding closing_intent_for closing_intent invert_all inverted make_leg make_intent check_scalars
    check_legs_are_coherent check_shape check_vertical check_lifecycle check_opening
    check_strike_ordering check_every_short_is_covered check_maximum_loss
    compute_maximum_loss_per_contract widest_wing sole distinct con_ids strip upper ◌-ℤ◌ ◌*ℤ◌
closing_intent_for-IsExit_example =
    closing_intent_for-IsExit profit position request none
      (close_of spread (record request { limit_price = pos 20_000 })) refl
