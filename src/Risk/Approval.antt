-- ===== src/Risk/Approval.antt =====
-- engine/src/engine/options/risk.py: what the checks of a candidate establish together.
use ibkr_strategy_engine.Prelude.{
  ◌≡◌, refl, ℕ, ◌<◌, ℤ, pos, negsuc, ◌≤ℤ◌, ◌*ℤ◌, ltb_ℤ, leb_ℤ, Bool, true, false, Option, none,
  some, if◌then◌else◌, arith,
}
use ibkr_strategy_engine.Domain.Legs.{OptionStrategyIntent}
use ibkr_strategy_engine.Governor.{MarginAssessment, required_buying_power}
use ibkr_strategy_engine.Governor.Policy.{scale}
use ibkr_strategy_engine.Risk.{
  RiskRefusalReason, Verdict, CandidateCaps, total_maximum_loss, against_equity, check_defined_loss,
  margin_within, check_broker_margin, stress_loss, stress_within, check_stress_loss,
}

-- An amount is within a cap, and within a fraction of known equity.
pub record IsWithin (amount : ℤ) (cap fraction : ℕ) (net : Option ℤ) : Type 0 where
  pub equity : ℤ
  pub known : net ≡ some equity
  pub capped : amount ≤ℤ pos cap
  pub share : amount *ℤ scale ≤ℤ equity *ℤ fraction

capped-IsWithin :
    (amount : ℤ) (cap fraction : ℕ) (reason reason' : RiskRefusalReason) (net : Option ℤ)
    → (if ltb_ℤ (pos cap) amount
        then Verdict.refusal reason
        else against_equity amount fraction reason' net)
      ≡ Verdict.approval
    → IsWithin amount cap fraction net
capped-IsWithin amount cap fraction reason reason' none h = absurd (ground arith)
capped-IsWithin amount cap fraction reason reason' (some n) h = record {
  equity = n;
  known = refl;
  capped = ground arith;
  share = ground arith;
}

-- What the three checks leave within the caps of the policy.
pub record IsCovered (p : CandidateCaps) (net : Option ℤ) (margin : Option MarginAssessment)
    (price : Option ℤ) (t : OptionStrategyIntent) : Type 0 where
  pub loss :
      IsWithin
        (total_maximum_loss t)
        p.max_defined_loss_per_position
        p.max_defined_loss_fraction
        net
  pub reserved : ℤ
  pub what_if : required_buying_power margin ≡ some reserved
  pub held : IsWithin reserved p.max_broker_margin_per_position p.max_broker_margin_fraction net
  pub reference : ℕ
  pub priced : price ≡ some (pos reference)
  pub positive : 0 < reference
  pub agreed : stress_loss t reference p.stress_move_fraction ≤ℤ total_maximum_loss t
  pub stress :
      IsWithin
        (stress_loss t reference p.stress_move_fraction)
        p.max_stress_loss_per_position
        p.max_stress_loss_fraction
        net

margin-IsWithin :
    (p : CandidateCaps) (net : Option ℤ) (margin : Option MarginAssessment)
    → check_broker_margin p net margin ≡ Verdict.approval
    → (reserved : ℤ) × (required_buying_power margin ≡ some reserved)
      × IsWithin reserved p.max_broker_margin_per_position p.max_broker_margin_fraction net
unfolding check_broker_margin
margin-IsWithin p net none h = absurd (ground arith)
margin-IsWithin p net (some m) h =
    by_field (required_buying_power (some m)) refl (by_answer m.accepted h)
  where
    refused : {reason : RiskRefusalReason} → Verdict.refusal reason ≡ Verdict.approval → ⊥
    refused h = ground arith

    by_answer :
        (accepted : Bool)
        → (if accepted
            then margin_within p net (required_buying_power (some m))
            else Verdict.refusal RiskRefusalReason.broker_whatif_rejected)
          ≡ Verdict.approval
        → margin_within p net (required_buying_power (some m)) ≡ Verdict.approval
    by_answer true h = h
    by_answer false h = absurd (refused h)

    by_field :
        (o : Option ℤ)
        → required_buying_power (some m) ≡ o
        → margin_within p net o ≡ Verdict.approval
        → (reserved : ℤ) × (required_buying_power (some m) ≡ some reserved)
          × IsWithin reserved p.max_broker_margin_per_position p.max_broker_margin_fraction net
    by_field none e h = absurd (refused h)
    by_field (some reserved) e h = (reserved, e, capped-IsWithin reserved _ _ _ _ net h)

stress-IsWithin :
    (p : CandidateCaps) (net price : Option ℤ) (t : OptionStrategyIntent)
    → check_stress_loss p net price t ≡ Verdict.approval
    → (reference : ℕ) × (price ≡ some (pos reference))
      × (0 < reference)
      × (stress_loss t reference p.stress_move_fraction ≤ℤ total_maximum_loss t)
      × IsWithin
          (stress_loss t reference p.stress_move_fraction)
          p.max_stress_loss_per_position
          p.max_stress_loss_fraction
          net
unfolding check_stress_loss
stress-IsWithin p net none t h = absurd (ground arith)
stress-IsWithin p net (some (negsuc n)) t h = absurd (ground arith)
stress-IsWithin p net (some (pos n)) t h =
    let loss = stress_loss t n p.stress_move_fraction in
    let positive : leb_ℤ (pos n) (pos 0) ≡ false = ground arith in
    let tested : stress_within p net t loss ≡ Verdict.approval = rw positive at h in
    let agreed : ltb_ℤ (total_maximum_loss t) loss ≡ false = ground arith in
    (n, refl, ground arith, ground arith, capped-IsWithin loss _ _ _ _ net (rw agreed at tested))

-- A candidate that the defined-loss, margin and stress checks all approve has a known net liquidation, an
-- accepted what-if with both margin figures and a positive reference price, and its maximum loss, its
-- margin and its stress loss are each within the cap of the policy and within the fraction of net
-- liquidation.
pub candidate-IsCovered :
    (p : CandidateCaps) (net : Option ℤ) (margin : Option MarginAssessment) (price : Option ℤ)
    (t : OptionStrategyIntent)
    → check_defined_loss p net t ≡ Verdict.approval
    → check_broker_margin p net margin ≡ Verdict.approval
    → check_stress_loss p net price t ≡ Verdict.approval
    → IsCovered p net margin price t
unfolding check_defined_loss
candidate-IsCovered p net margin price t loss_ok margin_ok stress_ok =
    let (reserved, what_if, held) = margin-IsWithin p net margin margin_ok in
    let (reference, priced, positive, agreed, stress) = stress-IsWithin p net price t stress_ok in
    record {
      loss = capped-IsWithin (total_maximum_loss t) _ _ _ _ net loss_ok;
      reserved = reserved;
      what_if = what_if;
      held = held;
      reference = reference;
      priced = priced;
      positive = positive;
      agreed = agreed;
      stress = stress;
    }
