-- ===== src/Governor/Portfolio.antt =====
-- engine/src/engine/options/portfolio.py: the account state that a decision is made against. An amount
-- that `_amount` accepts is a natural number of the quantum, and a time a number of seconds.
use ibkr_strategy_engine.Prelude.{
  ℕ, ℤ, ◌-ℤ◌, ltb, String, Bool, str_eq, Option, none, some, List, any, sum_by, select,
  if◌then◌else◌,
}
use ibkr_strategy_engine.Governor.Policy.{normalized}

pub record PositionExposure : Type 0 where
  pub underlying : String
  pub buying_power_reserved : ℕ
  pub maximum_loss : ℕ

pub record PortfolioSnapshot : Type 0 where
  pub as_of : ℤ
  pub net_liquidation : ℕ
  pub positions : List PositionExposure
  pub reported_buying_power_reserved : Option ℕ

abbrev pub reserved_where : (PositionExposure → Bool) → List PositionExposure → ℕ
reserved_where p positions = sum_by (λ x. x.buying_power_reserved) (select p positions)

abbrev derived_buying_power_reserved : PortfolioSnapshot → ℕ
derived_buying_power_reserved s = sum_by (λ x. x.buying_power_reserved) s.positions

-- The larger of the derived total and the reported one.
abbrev pub larger_of : ℕ → Option ℕ → ℕ
larger_of derived none = derived
larger_of derived (some reported) = if ltb derived reported then reported else derived

abbrev pub total_buying_power_reserved : PortfolioSnapshot → ℕ
total_buying_power_reserved s =
    larger_of (derived_buying_power_reserved s) s.reported_buying_power_reserved

abbrev pub buying_power_for_underlying : PortfolioSnapshot → String → ℕ
buying_power_for_underlying s symbol =
    reserved_where (λ x. str_eq (normalized x.underlying) (normalized symbol)) s.positions

abbrev pub buying_power_where : PortfolioSnapshot → List String → ℕ
buying_power_where s symbols =
    reserved_where (λ x. any (str_eq (normalized x.underlying)) symbols) s.positions

abbrev pub age_at : PortfolioSnapshot → ℤ → ℤ
age_at s when = when -ℤ s.as_of
