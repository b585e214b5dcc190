-- ===== src/Domain.antt =====
-- engine/src/engine/options/domain.py: option legs and strategies. The checks are in `Domain.Checks`,
-- the maximum loss in `Domain.Loss`, and the closing order in `Domain.Closing`.
pub mod Legs
pub mod Loss
pub mod Payoff
pub mod Checks
pub mod Wings
pub mod Risk
pub mod Closing
pub mod Retire
pub mod Closable
pub mod Examples
