-- ===== src/Risk/Examples.antt =====
-- engine/src/engine/options/risk.py: the put credit spread of the strategies, on an account of a million
-- quanta.
use ibkr_strategy_engine.Prelude.{
  strip, List, ◌≡◌, ◌≢◌, refl, ◌+ℤ◌, ◌-ℤ◌, ◌*ℤ◌, pos, none, some, true,
}
use ibkr_strategy_engine.Prelude.Result.{ok}
use ibkr_strategy_engine.Domain.Loss.{add_legs, terminal_profit_per_share}
use ibkr_strategy_engine.Domain.Examples.{spread, spread-made}
use ibkr_strategy_engine.Governor.{MarginAssessment, required_buying_power}
use ibkr_strategy_engine.Risk.{
  RiskRefusalReason, Verdict, CandidateCaps, check_defined_loss, check_broker_margin, terminal_loss,
  stress_loss, check_stress_loss,
}
use ibkr_strategy_engine.Quotes.{liveness}
use ibkr_strategy_engine.Quotes.Gate.{
  active_generation, require_live_quote, require_live_legs, any_stale,
  require_uniform_live_provenance,
}
use ibkr_strategy_engine.Quotes.Examples.{snapshot}
use ibkr_strategy_engine.Liquidity.{
  check_liquidity, find_problems, verdict, lead_of, nonstandard_legs, measure_legs, quote_for,
}
use ibkr_strategy_engine.Risk.Assess.{
  CandidateResult, CandidatePolicy, Market, check_market_data_entitlement, make_assessment,
  results_of, assess_candidate,
}
use ibkr_strategy_engine.Risk.Tradeable.{IsTradeable, approved-IsTradeable}
use ibkr_strategy_engine.Risk.Stress.{check_stress_loss_agrees}

abbrev caps : CandidateCaps
caps = record {
  max_defined_loss_per_position = 1_000;
  max_defined_loss_fraction = 500;
  max_broker_margin_per_position = 1_500;
  max_broker_margin_fraction = 500;
  stress_move_fraction = 1_500;
  max_stress_loss_per_position = 900;
  max_stress_loss_fraction = 500;
}

abbrev what_if : MarginAssessment
what_if = record {
  accepted = true;
  initial_margin_change = some (pos 850);
  maintenance_margin_change = some (pos 900);
}

-- A fall by 15 from 100 is through both strikes.
stress_test : stress_loss spread 100 1_500 ≡ pos 800
unfolding stress_loss terminal_loss terminal_profit_per_share add_legs ◌+ℤ◌ ◌-ℤ◌ ◌*ℤ◌
stress_test = refl

small_account_test :
    check_defined_loss caps (some (pos 15_999)) spread
    ≡ Verdict.refusal RiskRefusalReason.defined_loss_fraction_exceeded
unfolding check_defined_loss ◌*ℤ◌
small_account_test = refl

no_price_test :
    check_stress_loss caps none (some (pos 0)) spread
    ≡ Verdict.refusal RiskRefusalReason.stress_reference_price_missing
unfolding check_stress_loss
no_price_test = refl

check_stress_loss_agrees_example :
    check_stress_loss caps (some (pos 20_000)) (some (pos 100)) spread
    ≢ Verdict.refusal RiskRefusalReason.stress_exceeds_defined_loss
check_stress_loss_agrees_example =
    check_stress_loss_agrees spread spread caps (some (pos 20_000)) (some (pos 100)) spread-made
      refl

abbrev limits : CandidatePolicy
limits = record {
  version = "p1";
  quote_maximum_age = pos 100;
  caps = caps;
  liquidity = record {
    max_leg_spread_dollars = 10;
    max_leg_spread_fraction = 2_000;
    minimum_open_interest = 100;
    minimum_volume = 10;
    max_crossing_cost_fraction = 2_500;
    minimum_quoted_strikes = 2;
  };
}

abbrev market : Market
market = record {
  quotes = some snapshot;
  margin = some what_if;
  underlying_price = some (pos 100);
  net_liquidation = some (pos 20_000);
  evaluated_at = pos 1_010;
  quoted_window = none;
}

abbrev approvals : List CandidateResult
approvals = results_of limits market spread none

approvals_given : assess_candidate limits market spread ≡ ok approvals
unfolding assess_candidate check_market_data_entitlement make_assessment
    require_uniform_live_provenance require_live_legs require_live_quote any_stale active_generation
    liveness strip ◌-ℤ◌
approvals_given = refl

approved-IsTradeable_example : IsTradeable limits market spread
unfolding check_defined_loss check_broker_margin required_buying_power check_stress_loss stress_loss
    terminal_loss terminal_profit_per_share add_legs check_liquidity find_problems verdict lead_of
    nonstandard_legs measure_legs quote_for ◌+ℤ◌ ◌-ℤ◌ ◌*ℤ◌
approved-IsTradeable_example =
    approved-IsTradeable limits market spread approvals approvals_given refl
