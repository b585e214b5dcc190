-- ===== src/Governor/Examples.antt =====
-- engine/src/engine/options/governor.py: a candidate on one of two classified symbols.
use ibkr_strategy_engine.Prelude.{
  pos, ◌≡◌, refl, true, false, inr, none, some, [], ◌∷◌, strip, upper, ◌+ℤ◌, ◌-ℤ◌, ◌*ℤ◌,
}
use ibkr_strategy_engine.Prelude.Result.{ok}
use ibkr_strategy_engine.Governor.Policy.{
  Pairs, RiskPolicy, normalized, check_pairs, label_of, members,
}
use ibkr_strategy_engine.Governor.Portfolio.{PositionExposure, PortfolioSnapshot}
use ibkr_strategy_engine.Governor.{
  MarginAssessment, required_buying_power, check_portfolio_state, check_incremental_bpr,
  check_total_bpr, check_underlying_concentration, check_group_concentration, evaluate, approved,
}
use ibkr_strategy_engine.Governor.Approval.{IsBounded, approved-IsBounded, evaluate_fails_closed}
use ibkr_strategy_engine.Governor.Smaller.{with_positions, approved_smaller}

abbrev labels : Pairs
labels = ("SPY", "index") ∷ (" qqq", "index") ∷ ("XOM", "energy") ∷ []

-- The default fractions.
abbrev policy : RiskPolicy
policy = record {
  max_total_bpr_fraction = 3_500;
  max_incremental_bpr_fraction = 500;
  max_underlying_bpr_fraction = 1_000;
  max_sector_bpr_fraction = 1_500;
  max_correlation_group_bpr_fraction = 2_000;
  portfolio_snapshot_maximum_age = 60;
  sectors = labels;
  correlation_groups = labels;
}

abbrev held : PositionExposure
held = record { underlying = "QQQ"; buying_power_reserved = 500; maximum_loss = 500 }

-- 10,000 of net liquidation, of which 500 are reserved on QQQ.
abbrev book : PortfolioSnapshot
book = record {
  as_of = pos 1_000;
  net_liquidation = 10_000;
  positions = held ∷ [];
  reported_buying_power_reserved = none;
}

abbrev margin : MarginAssessment
margin = record {
  accepted = true;
  initial_margin_change = some (pos 400);
  maintenance_margin_change = some (pos 500);
}

labels-checked : check_pairs [] labels ≡ ok tt
unfolding check_pairs normalized strip upper
labels-checked = refl

book-approved : approved (evaluate policy " spy" (some book) (some margin) (pos 1_030)) ≡ true
unfolding evaluate required_buying_power check_portfolio_state check_incremental_bpr check_total_bpr
    check_underlying_concentration check_group_concentration label_of members normalized strip upper
    ◌+ℤ◌ ◌-ℤ◌ ◌*ℤ◌
book-approved = refl

-- One unit more than the fraction of the account is refused.
large_test :
    approved (
      evaluate policy "SPY"
        (some book)
        (some (record margin { initial_margin_change = some (pos 501) }))
        (pos 1_030))
    ≡ false
unfolding evaluate required_buying_power check_portfolio_state check_incremental_bpr check_total_bpr
    check_underlying_concentration check_group_concentration label_of members normalized strip upper
    ◌+ℤ◌ ◌-ℤ◌ ◌*ℤ◌
large_test = refl

approved-IsBounded_example : IsBounded policy (normalized " spy") book (pos 500) (pos 1_030)
unfolding required_buying_power
approved-IsBounded_example =
    approved-IsBounded policy " spy" book (some margin) (pos 1_030) (pos 500) labels-checked
      labels-checked refl book-approved

evaluate_fails_closed_example :
    approved (
      evaluate policy "SPY"
        (some book)
        (some (record margin { maintenance_margin_change = none }))
        (pos 1_030))
    ≡ false
evaluate_fails_closed_example =
    evaluate_fails_closed policy "SPY" (some book)
      (some (record margin { maintenance_margin_change = none })) (pos 1_030)
      (inr (inr (record margin { maintenance_margin_change = none }, refl, inr (inr refl))))

approved_smaller_example :
    approved (evaluate policy " spy" (some (with_positions book [])) (some margin) (pos 1_030))
    ≡ true
approved_smaller_example =
    approved_smaller policy " spy" [] held [] book (some margin) (pos 1_030) book-approved
