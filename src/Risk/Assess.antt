-- ===== src/Risk/Assess.antt =====
-- engine/src/engine/options/risk.py: `assess_candidate`, the five checks of one candidate. The results carry
-- the codes of the check that gave them; an assessment's version is that of the policy.
use ibkr_strategy_engine.Prelude.{
  ℕ, ℤ, String, Bool, true, false, not, ◌&&◌, Option, none, some, is_some, List, [], ◌∷◌, all, any,
  is_empty, strip,
}
use ibkr_strategy_engine.Prelude.Result.{Result, ok, err, ◌>>=◌, ◌>>◌, refuse_if}
use ibkr_strategy_engine.Domain.Legs.{OptionStrategyIntent}
use ibkr_strategy_engine.Governor.{MarginAssessment}
use ibkr_strategy_engine.Quotes.{RefusalReason, StrategyQuoteSnapshot, OptionQuote}
use ibkr_strategy_engine.Quotes.Gate.{
  GateError, require_uniform_live_provenance, execution_entitlement_set,
}
use ibkr_strategy_engine.Liquidity.{LiquidityRefusalReason, LiquidityPolicy, check_liquidity}
use ibkr_strategy_engine.Risk.{
  RiskRefusalReason, Verdict, CandidateCaps, check_defined_loss, check_broker_margin,
  check_stress_loss,
}

-- A member of one of the three taxonomies.
pub data RefusalCode : Type 0 where
  market : RefusalReason → RefusalCode
  risk : RiskRefusalReason → RefusalCode
  liquidity : LiquidityRefusalReason → RefusalCode

pub data CandidateCheck : Type 0 where
  market_data_entitlement defined_loss broker_margin stress_loss liquidity_gate : CandidateCheck

-- A result of a check: an approval carries no reason.
pub record CandidateResult : Type 0 where
  pub check : CandidateCheck
  pub reason : Option RefusalCode

pub record CandidatePolicy : Type 0 where
  pub version : String
  pub quote_maximum_age : ℤ
  pub caps : CandidateCaps
  pub liquidity : LiquidityPolicy

pub data AssessmentError : Type 0 where
  gate : GateError → AssessmentError
  reported_twice incomplete version_empty : AssessmentError

-- What `check_market_data_entitlement` makes of the gate: it catches a refusal, and nothing else.
abbrev pub caught : Result GateError Unit → Result AssessmentError (Option RefusalCode)
caught (ok _) = ok none
caught (err (GateError.refused reason)) = ok (some (RefusalCode.market reason))
caught (err GateError.key_error) = err (AssessmentError.gate GateError.key_error)

unfoldable pub check_market_data_entitlement :
    ℤ
    → ℤ
    → OptionStrategyIntent
    → Option StrategyQuoteSnapshot
    → Result AssessmentError (Option RefusalCode)
check_market_data_entitlement decision_time maximum_age intent none =
    ok (some (RefusalCode.risk RiskRefusalReason.no_market_data_snapshot))
check_market_data_entitlement decision_time maximum_age intent (some s) = caught (
    require_uniform_live_provenance decision_time maximum_age s.generations s.underlying
      (execution_entitlement_set s.legs intent.legs))

abbrev pub code_of : Verdict → Option RefusalCode
code_of Verdict.approval = none
code_of (Verdict.refusal reason) = some (RefusalCode.risk reason)

abbrev pub liquidity_code : Option LiquidityRefusalReason → Option RefusalCode
liquidity_code none = none
liquidity_code (some reason) = some (RefusalCode.liquidity reason)

abbrev pub same_check : CandidateCheck → CandidateCheck → Bool
same_check CandidateCheck.market_data_entitlement CandidateCheck.market_data_entitlement = true
same_check CandidateCheck.defined_loss CandidateCheck.defined_loss = true
same_check CandidateCheck.broker_margin CandidateCheck.broker_margin = true
same_check CandidateCheck.stress_loss CandidateCheck.stress_loss = true
same_check CandidateCheck.liquidity_gate CandidateCheck.liquidity_gate = true
same_check _ _ = false

abbrev pub required_checks : List CandidateCheck
required_checks =
    CandidateCheck.market_data_entitlement ∷ CandidateCheck.defined_loss
    ∷ CandidateCheck.broker_margin ∷ CandidateCheck.stress_loss ∷ CandidateCheck.liquidity_gate ∷ []

abbrev pub reports : List CandidateResult → CandidateCheck → Bool
reports results check = any (λ r. same_check check r.check) results

abbrev pub reports_once : List CandidateResult → Bool
reports_once [] = true
reports_once (r ∷ results) = not (reports results r.check) && reports_once results

-- `CandidateRiskAssessment.__post_init__`; a check is one of the required by its type.
unfoldable pub make_assessment :
    String → List CandidateResult → Result AssessmentError (List CandidateResult)
make_assessment version results = do
  refuse_if (not (reports_once results)) AssessmentError.reported_twice
  refuse_if (not (all (reports results) required_checks)) AssessmentError.incomplete
  refuse_if (is_empty (strip version)) AssessmentError.version_empty
  ok results

-- `CandidateRiskAssessment.approved`
abbrev pub is_tradeable : List CandidateResult → Bool
is_tradeable results = all (λ r. not (is_some r.reason)) results

abbrev pub quotes_of : Option StrategyQuoteSnapshot → Option (List OptionQuote)
quotes_of none = none
quotes_of (some s) = some s.legs

-- The arguments of `assess_candidate` beside the strategy and the policy.
pub record Market : Type 0 where
  pub quotes : Option StrategyQuoteSnapshot
  pub margin : Option MarginAssessment
  pub underlying_price : Option ℤ
  pub net_liquidation : Option ℤ
  pub evaluated_at : ℤ
  pub quoted_window : Option ℕ

abbrev pub results_of :
    CandidatePolicy → Market → OptionStrategyIntent → Option RefusalCode → List CandidateResult
results_of p m intent entitlement =
    record { check = CandidateCheck.market_data_entitlement; reason = entitlement }
    ∷ record {
      check = CandidateCheck.defined_loss;
      reason = code_of (check_defined_loss p.caps m.net_liquidation intent);
    }
    ∷ record {
      check = CandidateCheck.broker_margin;
      reason = code_of (check_broker_margin p.caps m.net_liquidation m.margin);
    }
    ∷ record {
      check = CandidateCheck.stress_loss;
      reason = code_of (check_stress_loss p.caps m.net_liquidation m.underlying_price intent);
    }
    ∷ record {
      check = CandidateCheck.liquidity_gate;
      reason =
          liquidity_code
            (check_liquidity p.liquidity intent.legs (quotes_of m.quotes) m.quoted_window);
    }
    ∷ []

unfoldable pub assess_candidate :
    CandidatePolicy → Market → OptionStrategyIntent → Result AssessmentError (List CandidateResult)
unfolding check_market_data_entitlement make_assessment
assess_candidate p m intent = do
  entitlement ← check_market_data_entitlement m.evaluated_at p.quote_maximum_age intent m.quotes
  make_assessment p.version (results_of p m intent entitlement)
