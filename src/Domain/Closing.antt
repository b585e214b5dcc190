-- ===== src/Domain/Closing.antt =====
-- engine/src/engine/options/domain.py: `closing_intent`, the order that retires a position.
use ibkr_strategy_engine.Prelude.{ℕ, ℤ, String, Bool, not, ◌==◌, ltb, none, some, List, [], ◌∷◌}
use ibkr_strategy_engine.Prelude.Result.{Result, ok, ◌>>=◌, ◌>>◌, refuse_if}
use ibkr_strategy_engine.Domain.Legs.{
  StrategyAction, PriceEffect, Refusal, OptionLegIntent, OptionStrategyIntent, inverted,
}
use ibkr_strategy_engine.Domain.Checks.{is_opening, make_intent}

unfoldable pub invert_all : List OptionLegIntent → Result Refusal (List OptionLegIntent)
invert_all [] = ok []
invert_all (leg ∷ legs) = do first ← inverted leg; rest ← invert_all legs; ok (first ∷ rest)

-- The keyword arguments of `closing_intent`.
pub record CloseRequest : Type 0 where
  pub strategy_id : String
  pub limit_price : ℤ
  pub created_at_aware : Bool
  pub configuration_version : String
  pub quantity : ℕ

unfoldable pub closing_intent :
    OptionStrategyIntent → CloseRequest → Result Refusal OptionStrategyIntent
closing_intent s r = do
  refuse_if (not (is_opening s.strategy_action)) Refusal.not_an_open
  refuse_if (r.quantity == 0) Refusal.quantity_not_positive
  refuse_if (ltb s.quantity r.quantity) Refusal.close_too_large
  legs ← invert_all s.legs
  make_intent (record {
    strategy_id = r.strategy_id;
    strategy_type = s.strategy_type;
    strategy_action = StrategyAction.closing;
    underlying = s.underlying;
    quantity = r.quantity;
    legs = legs;
    expiration = s.expiration;
    limit_price = r.limit_price;
    price_effect = PriceEffect.debit;
    maximum_loss_per_contract = s.maximum_loss_per_contract;
    configuration_version = r.configuration_version;
    created_at_aware = r.created_at_aware;
    estimated_buying_power_change = none;
    closes_strategy_id = some s.strategy_id;
  })
