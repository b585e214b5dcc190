-- ===== src/Domain/Examples.antt =====
-- engine/src/engine/options/domain.py: a put credit spread, opened and closed.
use ibkr_strategy_engine.Prelude.{
  ◌≤◌, ◌<◌, ℤ, pos, ◌≤ℤ◌, ◌+ℤ◌, ◌-ℤ◌, ◌*ℤ◌, arith, ◌≡◌, refl, true, none, some, [], ◌∷◌, strip,
  upper,
}
use ibkr_strategy_engine.Prelude.Result.{ok, err}
use ibkr_strategy_engine.Domain.Legs.{
  OptionRight, OrderAction, StrategyAction, StrategyType, PriceEffect, Refusal, OptionLegIntent,
  make_leg, sole, OptionStrategyIntent, first_multiplier, inverted,
}
use ibkr_strategy_engine.Domain.Loss.{
  widest_wing, compute_maximum_loss_per_contract, add_legs, terminal_profit_per_share,
}
use ibkr_strategy_engine.Domain.Checks.{
  check_scalars, distinct, con_ids, check_legs_are_coherent, check_vertical, check_shape,
  check_strike_ordering, check_lifecycle, check_every_short_is_covered, check_maximum_loss,
  check_opening, make_intent,
}
use ibkr_strategy_engine.Domain.Closing.{CloseRequest, invert_all, closing_intent}
use ibkr_strategy_engine.Domain.Risk.{maximum_loss_bounds_payoff}
use ibkr_strategy_engine.Domain.Retire.{closing_intent_flat}
use ibkr_strategy_engine.Domain.Closable.{close_of, closing_intent_total}

abbrev pub short_put : OptionLegIntent
short_put = record {
  con_id = 101;
  symbol = "SPY";
  expiration = 739_000;
  strike = pos 100;
  right = OptionRight.put;
  action = OrderAction.sell;
  ratio = 1;
  multiplier = 100;
  exchange = "SMART";
  trading_class = none;
}

abbrev pub long_put : OptionLegIntent
long_put = record short_put { con_id = 102; strike = pos 95; action = OrderAction.buy }

-- Short the 100 put and long the 95 put for a credit of 1, twice.
abbrev pub spread : OptionStrategyIntent
spread = record {
  strategy_id = "a1";
  strategy_type = StrategyType.put_credit_spread;
  strategy_action = StrategyAction.opening;
  underlying = " spy ";
  quantity = 2;
  legs = short_put ∷ long_put ∷ [];
  expiration = 739_000;
  limit_price = pos 1;
  price_effect = PriceEffect.credit;
  maximum_loss_per_contract = pos 400;
  configuration_version = "v1";
  created_at_aware = true;
  estimated_buying_power_change = none;
  closes_strategy_id = none;
}

abbrev take_profit : CloseRequest
take_profit = record {
  strategy_id = "b2";
  limit_price = pos 1;
  created_at_aware = true;
  configuration_version = "v1";
  quantity = 1;
}

pub spread-made : make_intent spread ≡ ok spread
unfolding make_intent check_scalars check_legs_are_coherent check_shape check_vertical
    check_lifecycle check_opening check_strike_ordering check_every_short_is_covered
    check_maximum_loss compute_maximum_loss_per_contract widest_wing sole distinct con_ids strip
    upper ◌-ℤ◌ ◌*ℤ◌
spread-made = refl

-- A recorded loss that the legs do not give is refused.
mismatch_test :
    make_intent (record spread { maximum_loss_per_contract = pos 399 }) ≡ err Refusal.loss_mismatch
unfolding make_intent check_scalars check_legs_are_coherent check_shape check_vertical
    check_lifecycle check_opening check_strike_ordering check_every_short_is_covered
    check_maximum_loss compute_maximum_loss_per_contract widest_wing sole distinct con_ids strip
    upper ◌-ℤ◌ ◌*ℤ◌
mismatch_test = refl

-- A put wing sold low and bought high is refused.
reversed_test :
    make_intent (record spread { legs = record short_put { strike = pos 90 } ∷ long_put ∷ [] })
    ≡ err Refusal.put_wing_reversed
unfolding make_intent check_scalars check_legs_are_coherent check_shape check_vertical
    check_lifecycle check_opening check_strike_ordering sole distinct con_ids strip upper
reversed_test = refl

maximum_loss_bounds_payoff_example :
    pos 0
    ≤ℤ terminal_profit_per_share spread (pos 80) *ℤ first_multiplier spread.legs
      +ℤ spread.maximum_loss_per_contract
maximum_loss_bounds_payoff_example =
    maximum_loss_bounds_payoff spread spread (pos 80) spread-made refl

closing_intent_total_example : closing_intent spread take_profit ≡ ok (close_of spread take_profit)
unfolding make_leg strip
closing_intent_total_example =
    closing_intent_total spread take_profit spread-made (refl, (refl, tt)) refl (omega arith)
      (omega arith) (omega arith) refl refl

spread_closes : closing_intent spread take_profit ≡ ok (close_of spread take_profit)
unfolding closing_intent invert_all inverted make_leg make_intent check_scalars
    check_legs_are_coherent check_shape check_vertical check_lifecycle sole distinct con_ids strip
    upper
spread_closes = refl

closing_intent_flat_example :
    ((close_of spread take_profit).closes_strategy_id ≡ some "a1")
    × (con_ids (close_of spread take_profit).legs ≡ con_ids spread.legs)
    × ((close_of spread take_profit).quantity ≡ take_profit.quantity)
    × (1 ≤ 2)
    × (0 < 1)
    × ((at net : ℤ)
        → add_legs at (add_legs at net spread.legs) (close_of spread take_profit).legs ≡ net)
closing_intent_flat_example =
    closing_intent_flat spread (close_of spread take_profit) take_profit spread_closes
