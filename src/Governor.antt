-- ===== src/Governor.antt =====
-- engine/src/engine/options/governor.py: the portfolio checks that a candidate must pass. Detail texts
-- are left out; the observed amount and the limit of a result are the operands of its comparison.
pub mod Policy
pub mod Portfolio
pub mod Buckets
pub mod Approval
pub mod Smaller
mod Examples
use ibkr_strategy_engine.Prelude.{
  ℕ, ◌*◌, ℤ, pos, ◌+ℤ◌, ◌*ℤ◌, ltb_ℤ, max_ℤ, String, Bool, true, false, not, ◌||◌, Option, none,
  some, is_some, List, [], ◌∷◌, all, any, if◌then◌else◌,
}
use ibkr_strategy_engine.Governor.Policy.{RiskPolicy, Pairs, scale, normalized, label_for, members}
use ibkr_strategy_engine.Governor.Portfolio.{
  PortfolioSnapshot, total_buying_power_reserved, buying_power_for_underlying, buying_power_where,
  age_at,
}

pub data GovernorRefusalReason : Type 0 where
  portfolio_state_unavailable portfolio_state_stale portfolio_position_unclassified :
      GovernorRefusalReason
  candidate_bpr_unknown incremental_bpr_exceeded total_bpr_exceeded : GovernorRefusalReason
  underlying_concentration_exceeded sector_unclassified sector_concentration_exceeded :
      GovernorRefusalReason
  correlation_group_unclassified correlation_concentration_exceeded : GovernorRefusalReason

-- REQUIRED_GOVERNOR_CHECKS
pub data Check : Type 0 where
  portfolio_state incremental_bpr total_bpr underlying_concentration : Check
  sector_concentration correlation_concentration : Check

-- A result, which carries a reason exactly when it is a refusal.
pub data CheckResult : Type 0 where
  approval : Check → CheckResult
  refusal : Check → GovernorRefusalReason → CheckResult

abbrev pub is_approved : CheckResult → Bool
is_approved (CheckResult.approval _) = true
is_approved (CheckResult.refusal _ _) = false

-- The broker's answer to a what-if.
pub record MarginAssessment : Type 0 where
  pub accepted : Bool
  pub initial_margin_change : Option ℤ
  pub maintenance_margin_change : Option ℤ

abbrev pub larger_change : Option ℤ → Option ℤ → Option ℤ
larger_change (some initial) (some maintenance) = some (max_ℤ initial maintenance)
larger_change _ _ = none

-- `required_buying_power` of risk.py.
unfoldable pub required_buying_power : Option MarginAssessment → Option ℤ
required_buying_power none = none
required_buying_power (some m) =
    if m.accepted then larger_change m.initial_margin_change m.maintenance_margin_change else none

-- `resulting > snapshot.net_liquidation * fraction`
abbrev pub exceeds : ℤ → PortfolioSnapshot → ℕ → Bool
exceeds resulting s fraction = ltb_ℤ (pos (s.net_liquidation * fraction)) (resulting *ℤ scale)

abbrev capped : Check → GovernorRefusalReason → Bool → CheckResult
capped check reason over =
    if over then CheckResult.refusal check reason else CheckResult.approval check

abbrev pub unclassified : RiskPolicy → PortfolioSnapshot → Bool
unclassified p s =
    any
      (λ x.
        not (is_some (label_for p.sectors (normalized x.underlying)))
        || not (is_some (label_for p.correlation_groups (normalized x.underlying))))
      s.positions

pub check_portfolio_state : RiskPolicy → Option PortfolioSnapshot → ℤ → CheckResult
check_portfolio_state p none decision_time =
    CheckResult.refusal Check.portfolio_state GovernorRefusalReason.portfolio_state_unavailable
check_portfolio_state p (some s) decision_time =
    if ltb_ℤ (pos p.portfolio_snapshot_maximum_age) (age_at s decision_time)
    then CheckResult.refusal Check.portfolio_state GovernorRefusalReason.portfolio_state_stale
    else if unclassified p s
    then CheckResult.refusal Check.portfolio_state
        GovernorRefusalReason.portfolio_position_unclassified
    else CheckResult.approval Check.portfolio_state

-- The shape of the buying power checks: no snapshot, no reserve, then the cap on what results.
abbrev bpr_check :
    Check
    → GovernorRefusalReason
    → ℕ
    → (PortfolioSnapshot → ℕ)
    → Option ℤ
    → Option PortfolioSnapshot
    → CheckResult
bpr_check check reason fraction existing bpr none =
    CheckResult.refusal check GovernorRefusalReason.portfolio_state_unavailable
bpr_check check reason fraction existing none (some s) =
    CheckResult.refusal check GovernorRefusalReason.candidate_bpr_unknown
bpr_check check reason fraction existing (some bpr) (some s) =
    capped check reason (exceeds (pos (existing s) +ℤ bpr) s fraction)

pub check_incremental_bpr : RiskPolicy → Option ℤ → Option PortfolioSnapshot → CheckResult
check_incremental_bpr p none (some s) =
    CheckResult.refusal Check.incremental_bpr GovernorRefusalReason.candidate_bpr_unknown
check_incremental_bpr p (some bpr) (some s) =
    capped Check.incremental_bpr GovernorRefusalReason.incremental_bpr_exceeded
      (exceeds bpr s p.max_incremental_bpr_fraction)
check_incremental_bpr p bpr none =
    CheckResult.refusal Check.incremental_bpr GovernorRefusalReason.portfolio_state_unavailable

pub check_total_bpr : RiskPolicy → Option ℤ → Option PortfolioSnapshot → CheckResult
check_total_bpr p =
    bpr_check Check.total_bpr GovernorRefusalReason.total_bpr_exceeded p.max_total_bpr_fraction
      total_buying_power_reserved

pub check_underlying_concentration :
    RiskPolicy → String → Option ℤ → Option PortfolioSnapshot → CheckResult
check_underlying_concentration p underlying =
    bpr_check Check.underlying_concentration GovernorRefusalReason.underlying_concentration_exceeded
      p.max_underlying_bpr_fraction (λ s. buying_power_for_underlying s underlying)

-- The arguments in which the sector check and the correlation check differ.
pub record Grouping : Type 0 where
  pub check : Check
  pub pairs : Pairs
  pub fraction : ℕ
  pub unclassified_reason : GovernorRefusalReason
  pub exceeded_reason : GovernorRefusalReason

abbrev pub group_check : Grouping → Option String → Option ℤ → PortfolioSnapshot → CheckResult
group_check g none bpr s = CheckResult.refusal g.check g.unclassified_reason
group_check g (some group) none s =
    CheckResult.refusal g.check GovernorRefusalReason.candidate_bpr_unknown
group_check g (some group) (some bpr) s =
    capped g.check g.exceeded_reason
      (exceeds (pos (buying_power_where s (members g.pairs group)) +ℤ bpr) s g.fraction)

pub check_group_concentration :
    Grouping → String → Option ℤ → Option PortfolioSnapshot → CheckResult
check_group_concentration g underlying bpr none =
    CheckResult.refusal g.check GovernorRefusalReason.portfolio_state_unavailable
check_group_concentration g underlying bpr (some s) =
    group_check g (label_for g.pairs underlying) bpr s

abbrev pub by_sector : RiskPolicy → Grouping
by_sector p = record {
  check = Check.sector_concentration;
  pairs = p.sectors;
  fraction = p.max_sector_bpr_fraction;
  unclassified_reason = GovernorRefusalReason.sector_unclassified;
  exceeded_reason = GovernorRefusalReason.sector_concentration_exceeded;
}

abbrev pub by_correlation : RiskPolicy → Grouping
by_correlation p = record {
  check = Check.correlation_concentration;
  pairs = p.correlation_groups;
  fraction = p.max_correlation_group_bpr_fraction;
  unclassified_reason = GovernorRefusalReason.correlation_group_unclassified;
  exceeded_reason = GovernorRefusalReason.correlation_concentration_exceeded;
}

-- `evaluate`: the results of the verdict, for a candidate's underlying.
pub evaluate :
    RiskPolicy → String → Option PortfolioSnapshot → Option MarginAssessment → ℤ → List CheckResult
evaluate p candidate_underlying snapshot margin decision_time =
    let underlying = normalized candidate_underlying in
    let candidate_bpr = required_buying_power margin in
    check_portfolio_state p snapshot decision_time
    ∷ check_incremental_bpr p candidate_bpr snapshot
    ∷ check_total_bpr p candidate_bpr snapshot
    ∷ check_underlying_concentration p underlying candidate_bpr snapshot
    ∷ check_group_concentration (by_sector p) underlying candidate_bpr snapshot
    ∷ check_group_concentration (by_correlation p) underlying candidate_bpr snapshot
    ∷ []

-- `approved`
abbrev pub approved : List CheckResult → Bool
approved results = all is_approved results
