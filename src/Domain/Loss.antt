-- ===== src/Domain/Loss.antt =====
-- engine/src/engine/options/domain.py: `compute_maximum_loss_per_contract`, and the payoff at expiry
-- of engine/src/engine/options/risk.py that it must bound.
use ibkr_strategy_engine.Prelude.{
  ℕ, ℤ, pos, ◌+ℤ◌, ◌-ℤ◌, ◌*ℤ◌, leb_ℤ, max_ℤ, Option, some, List, [], ◌∷◌,
}
use ibkr_strategy_engine.Prelude.Result.{Result, ok, err, ◌>>=◌, ◌>>◌, refuse_if}
use ibkr_strategy_engine.Domain.Legs.{
  OptionRight, OrderAction, StrategyType, Refusal, OptionLegIntent, OptionStrategyIntent, sole,
}

-- The width of one wing: the distance from the first strike down to the second.
abbrev pub width_of : Refusal → Option OptionLegIntent → Option OptionLegIntent → Result Refusal ℤ
width_of e (some high) (some low) = ok (high.strike -ℤ low.strike)
width_of e _ _ = err e

-- `widest`, by the type of the strategy.
unfoldable pub widest_wing : StrategyType → List OptionLegIntent → Result Refusal ℤ
widest_wing StrategyType.put_credit_spread legs =
    width_of Refusal.put_legs_missing (sole legs OptionRight.put OrderAction.sell)
      (sole legs OptionRight.put OrderAction.buy)
widest_wing StrategyType.call_credit_spread legs =
    width_of Refusal.call_legs_missing (sole legs OptionRight.call OrderAction.buy)
      (sole legs OptionRight.call OrderAction.sell)
widest_wing StrategyType.iron_condor legs = do
  put_width ←
      width_of Refusal.condor_legs_missing (sole legs OptionRight.put OrderAction.sell)
        (sole legs OptionRight.put OrderAction.buy)
  call_width ←
      width_of Refusal.condor_legs_missing (sole legs OptionRight.call OrderAction.buy)
        (sole legs OptionRight.call OrderAction.sell)
  ok (max_ℤ put_width call_width)

unfoldable pub compute_maximum_loss_per_contract :
    StrategyType → List OptionLegIntent → ℤ → ℕ → Result Refusal ℤ
compute_maximum_loss_per_contract strategy_type legs credit multiplier = do
  refuse_if (leb_ℤ credit (pos 0)) Refusal.credit_not_positive
  widest ← widest_wing strategy_type legs
  refuse_if (leb_ℤ widest (pos 0)) Refusal.width_not_positive
  refuse_if (leb_ℤ widest credit) Refusal.credit_not_below_width
  ok ((widest -ℤ credit) *ℤ multiplier)

-- The intrinsic value of a contract at expiry.
abbrev pub intrinsic_by : OptionRight → ℤ → ℤ → ℤ
intrinsic_by OptionRight.put strike terminal_price = max_ℤ (pos 0) (strike -ℤ terminal_price)
intrinsic_by OptionRight.call strike terminal_price = max_ℤ (pos 0) (terminal_price -ℤ strike)

abbrev pub signed_by : OrderAction → ℤ → ℤ → ℤ
signed_by OrderAction.buy net contribution = net +ℤ contribution
signed_by OrderAction.sell net contribution = net -ℤ contribution

-- The loop of `terminal_profit_per_share`.
unfoldable pub add_legs : ℤ → ℤ → List OptionLegIntent → ℤ
add_legs terminal_price net [] = net
add_legs terminal_price net (leg ∷ legs) =
    add_legs terminal_price
      (signed_by leg.action net (intrinsic_by leg.right leg.strike terminal_price *ℤ leg.ratio))
      legs

-- `terminal_profit_per_share` of risk.py.
unfoldable pub terminal_profit_per_share : OptionStrategyIntent → ℤ → ℤ
unfolding add_legs
terminal_profit_per_share intent terminal_price =
    add_legs terminal_price intent.limit_price intent.legs
