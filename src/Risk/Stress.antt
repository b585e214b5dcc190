-- ===== src/Risk/Stress.antt =====
-- engine/src/engine/options/risk.py: the stress loss of a strategy that construction accepted.
use ibkr_strategy_engine.Prelude.{
  ◌≡◌, subst, ℕ, ℤ, pos, ◌≤ℤ◌, ◌+ℤ◌, ◌-ℤ◌, ◌*ℤ◌, +ℤ_parts, -ℤ_parts, *ℤ_parts, pos_part, ltb_ℤ,
  false, Option, none, some, if◌then◌else◌, arith, ◌≢◌,
}
use ibkr_strategy_engine.Prelude.Result.{ok}
use ibkr_strategy_engine.Domain.Legs.{StrategyAction, OptionStrategyIntent, first_multiplier}
use ibkr_strategy_engine.Domain.Loss.{terminal_profit_per_share}
use ibkr_strategy_engine.Domain.Checks.{check_scalars, make_intent, make_intent-Accepted}
use ibkr_strategy_engine.Domain.Risk.{maximum_loss_bounds_payoff, scale_bound}
use ibkr_strategy_engine.Risk.{
  RiskRefusalReason, Verdict, CandidateCaps, total_maximum_loss, terminal_loss, moved_down,
  moved_up, stress_loss, check_stress_loss,
}

loss_not_negative :
    (s : OptionStrategyIntent)
    → check_scalars s ≡ ok tt
    → ltb_ℤ s.maximum_loss_per_contract (pos 0) ≡ false
unfolding check_scalars
loss_not_negative s h = ground arith

terminal_loss-bounded :
    (s t : OptionStrategyIntent) (at : ℤ)
    → make_intent s ≡ ok t
    → s.strategy_action ≡ StrategyAction.opening
    → terminal_loss t at ≤ℤ total_maximum_loss t
unfolding terminal_loss
terminal_loss-bounded s t at made opens =
    let profit = terminal_profit_per_share t at *ℤ first_multiplier t.legs in
    let loss = t.maximum_loss_per_contract in
    let (e, good) = make_intent-Accepted s t made in
    let sign : ltb_ℤ loss (pos 0) ≡ false =
      subst (λ (u : OptionStrategyIntent). ltb_ℤ u.maximum_loss_per_contract (pos 0) ≡ false) e
        (loss_not_negative s good.scalars) in
    bounded_by profit loss t.quantity (maximum_loss_bounds_payoff s t at made opens) sign
  where
    bounded_by :
        (profit loss : ℤ) (n : ℕ)
        → pos 0 ≤ℤ profit +ℤ loss
        → ltb_ℤ loss (pos 0) ≡ false
        → (if ltb_ℤ (profit *ℤ n) (pos 0) then pos 0 -ℤ profit *ℤ n else pos 0) ≤ℤ loss *ℤ n
    bounded_by profit loss n h sign = ground (
      arith,
      scale_bound profit loss n (omega (arith, h, +ℤ_parts profit loss)),
      scale_bound (pos 0) loss n (ground arith),
      *ℤ_parts (pos 0) n,
      *ℤ_parts loss n,
      +ℤ_parts (pos 0 *ℤ n) (loss *ℤ n),
      +ℤ_parts (profit *ℤ n) (loss *ℤ n),
      -ℤ_parts (pos 0) (profit *ℤ n),
    )

-- For every opening strategy that construction accepts, the stress loss is within the recorded maximum
-- loss of the position, at every price of the underlying and for every move.
pub stress_loss-bounded :
    (s t : OptionStrategyIntent) (price fraction : ℕ)
    → make_intent s ≡ ok t
    → s.strategy_action ≡ StrategyAction.opening
    → stress_loss t price fraction ≤ℤ total_maximum_loss t
unfolding stress_loss
stress_loss-bounded s t price fraction made opens = ground (
  arith,
  terminal_loss-bounded s t (moved_down price fraction) made opens,
  terminal_loss-bounded s t (moved_up price fraction) made opens,
)

-- The stress check never finds that the legs and the recorded maximum loss disagree, for an opening
-- strategy that construction accepts.
pub check_stress_loss_agrees :
    (s t : OptionStrategyIntent) (p : CandidateCaps) (net price : Option ℤ)
    → make_intent s ≡ ok t
    → s.strategy_action ≡ StrategyAction.opening
    → check_stress_loss p net price t
      ≢ Verdict.refusal RiskRefusalReason.stress_exceeds_defined_loss
unfolding check_stress_loss
check_stress_loss_agrees s t p net none made opens h = ground arith
check_stress_loss_agrees s t p net (some price) made opens h =
    by_net net (stress_loss-bounded s t (pos_part price) p.stress_move_fraction made opens) h
  where
    by_net :
        (net : Option ℤ)
        → stress_loss t (pos_part price) p.stress_move_fraction ≤ℤ total_maximum_loss t
        → check_stress_loss p net (some price) t
          ≡ Verdict.refusal RiskRefusalReason.stress_exceeds_defined_loss
        → ⊥
    by_net none bound h = ground arith
    by_net (some n) bound h = ground arith
