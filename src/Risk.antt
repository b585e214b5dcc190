-- ===== src/Risk.antt =====
-- engine/src/engine/options/risk.py: the checks of one candidate that read the strategy, the broker's what-if
-- and the account. A fraction is in ten-thousandths; the quantum of the amounts is one in which the price
-- that a move leads to is a whole number. Detail texts are left out; the observed amount and the limit of a
-- result are the operands of its comparison.
pub mod Stress
pub mod Approval
pub mod Assess
pub mod Tradeable
mod Examples
use ibkr_strategy_engine.Prelude.{
  ℕ, ◌+◌, ◌-◌, ◌*◌, ◌/◌, ℤ, pos, ◌-ℤ◌, ◌*ℤ◌, pos_part, ltb_ℤ, leb_ℤ, max_ℤ, Bool, Option, none,
  some, if◌then◌else◌,
}
use ibkr_strategy_engine.Domain.Legs.{OptionStrategyIntent, first_multiplier}
use ibkr_strategy_engine.Domain.Loss.{terminal_profit_per_share}
use ibkr_strategy_engine.Governor.{MarginAssessment, required_buying_power}
use ibkr_strategy_engine.Governor.Policy.{scale}

pub data RiskRefusalReason : Type 0 where
  no_market_data_snapshot : RiskRefusalReason
  net_liquidation_unavailable max_defined_loss_exceeded defined_loss_fraction_exceeded :
      RiskRefusalReason
  broker_whatif_missing broker_whatif_rejected broker_margin_field_missing : RiskRefusalReason
  broker_margin_exceeded broker_margin_fraction_exceeded stress_reference_price_missing :
      RiskRefusalReason
  stress_exceeds_defined_loss stress_loss_exceeded stress_loss_fraction_exceeded : RiskRefusalReason

-- A result, which carries a reason exactly when it is a refusal.
pub data Verdict : Type 0 where
  approval : Verdict
  refusal : RiskRefusalReason → Verdict

-- The caps of `RiskPolicy` on one candidate.
pub record CandidateCaps : Type 0 where
  pub max_defined_loss_per_position : ℕ
  pub max_defined_loss_fraction : ℕ
  pub max_broker_margin_per_position : ℕ
  pub max_broker_margin_fraction : ℕ
  pub stress_move_fraction : ℕ
  pub max_stress_loss_per_position : ℕ
  pub max_stress_loss_fraction : ℕ

-- The property `total_maximum_loss` of a strategy.
abbrev pub total_maximum_loss : OptionStrategyIntent → ℤ
total_maximum_loss intent = intent.maximum_loss_per_contract *ℤ intent.quantity

-- `amount > net_liquidation * fraction`
abbrev pub over_fraction : ℤ → ℤ → ℕ → Bool
over_fraction amount net fraction = ltb_ℤ (net *ℤ fraction) (amount *ℤ scale)

-- The two caps on an amount, in the order of every check: the absolute one, then that on equity.
abbrev pub against_equity : ℤ → ℕ → RiskRefusalReason → Option ℤ → Verdict
against_equity amount fraction reason none =
    Verdict.refusal RiskRefusalReason.net_liquidation_unavailable
against_equity amount fraction reason (some net) =
    if over_fraction amount net fraction then Verdict.refusal reason else Verdict.approval

unfoldable pub check_defined_loss : CandidateCaps → Option ℤ → OptionStrategyIntent → Verdict
check_defined_loss p net intent =
    if ltb_ℤ (pos p.max_defined_loss_per_position) (total_maximum_loss intent)
    then Verdict.refusal RiskRefusalReason.max_defined_loss_exceeded
    else against_equity (total_maximum_loss intent) p.max_defined_loss_fraction
        RiskRefusalReason.defined_loss_fraction_exceeded net

abbrev pub margin_within : CandidateCaps → Option ℤ → Option ℤ → Verdict
margin_within p net none = Verdict.refusal RiskRefusalReason.broker_margin_field_missing
margin_within p net (some reserved) =
    if ltb_ℤ (pos p.max_broker_margin_per_position) reserved
    then Verdict.refusal RiskRefusalReason.broker_margin_exceeded
    else against_equity reserved p.max_broker_margin_fraction
        RiskRefusalReason.broker_margin_fraction_exceeded net

unfoldable pub check_broker_margin : CandidateCaps → Option ℤ → Option MarginAssessment → Verdict
check_broker_margin p net none = Verdict.refusal RiskRefusalReason.broker_whatif_missing
check_broker_margin p net (some m) =
    if m.accepted
    then margin_within p net (required_buying_power (some m))
    else Verdict.refusal RiskRefusalReason.broker_whatif_rejected

unfoldable pub terminal_loss : OptionStrategyIntent → ℤ → ℤ
terminal_loss intent terminal_price =
    let total =
      terminal_profit_per_share intent terminal_price
      *ℤ first_multiplier intent.legs
      *ℤ intent.quantity in
    if ltb_ℤ total (pos 0) then pos 0 -ℤ total else pos 0

abbrev pub moved_down : ℕ → ℕ → ℤ
moved_down price fraction = pos (price * (scale - fraction) / scale)

abbrev pub moved_up : ℕ → ℕ → ℤ
moved_up price fraction = pos (price * (scale + fraction) / scale)

unfoldable pub stress_loss : OptionStrategyIntent → ℕ → ℕ → ℤ
unfolding terminal_loss
stress_loss intent price fraction =
    max_ℤ (terminal_loss intent (moved_down price fraction))
      (terminal_loss intent (moved_up price fraction))

abbrev pub stress_within : CandidateCaps → Option ℤ → OptionStrategyIntent → ℤ → Verdict
stress_within p net intent loss =
    if ltb_ℤ (total_maximum_loss intent) loss
    then Verdict.refusal RiskRefusalReason.stress_exceeds_defined_loss
    else if ltb_ℤ (pos p.max_stress_loss_per_position) loss
    then Verdict.refusal RiskRefusalReason.stress_loss_exceeded
    else against_equity loss p.max_stress_loss_fraction
        RiskRefusalReason.stress_loss_fraction_exceeded net

unfoldable pub check_stress_loss :
    CandidateCaps → Option ℤ → Option ℤ → OptionStrategyIntent → Verdict
unfolding stress_loss
check_stress_loss p net none intent =
    Verdict.refusal RiskRefusalReason.stress_reference_price_missing
check_stress_loss p net (some price) intent =
    if leb_ℤ price (pos 0)
    then Verdict.refusal RiskRefusalReason.stress_reference_price_missing
    else stress_within p net intent (stress_loss intent (pos_part price) p.stress_move_fraction)
