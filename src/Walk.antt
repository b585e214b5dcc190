-- ===== src/Walk.antt =====
-- engine/src/engine/options/walk.py: the bounds of one price walk and the repricing of its order. Prices are
-- in half cents, as in Pricing; a product that falls between two of them is rounded to the side on which no
-- comparison with a price changes. Detail texts are left out.
pub mod Orders
pub mod Rung
pub mod Steps
pub mod Run
pub mod Kept
pub mod Repriced
pub mod Fills
pub mod Sends
pub mod Ends
pub mod Total
mod Examples
use ibkr_strategy_engine.Prelude.{
  ℕ, ◌+◌, ◌-◌, ◌*◌, ◌/◌, ◌==◌, ltb, ℤ, pos, negsuc, ◌+ℤ◌, ◌-ℤ◌, abs, max_ℤ, ltb_ℤ, leb_ℤ, eqb_ℤ,
  Bool, true, not, ◌&&◌, Option, none, some, List, [], ◌∷◌, any, if◌then◌else◌,
}
use ibkr_strategy_engine.Prelude.Result.{Result, ok, err, ◌>>=◌, ◌>>◌, refuse_if}
use ibkr_strategy_engine.Domain.Legs.{
  StrategyAction, PriceEffect, Refusal, OptionLegIntent, OptionStrategyIntent, first_multiplier,
}
use ibkr_strategy_engine.Domain.Loss.{compute_maximum_loss_per_contract}
use ibkr_strategy_engine.Domain.Checks.{is_credit, is_opening, make_intent}
use ibkr_strategy_engine.Pricing.Ladder.{PriceEnvelope, Fraction, min_ℤ}

pub data PolicyError : Type 0 where
  no_attempts dwell_not_positive timeout_not_positive poll_not_positive credit_not_positive :
      PolicyError
  fraction_out_of_range : PolicyError

-- The durations are in microseconds.
pub record WalkPolicy : Type 0 where
  pub dwell : ℤ
  pub minimum_credit : ℤ
  pub minimum_credit_fraction_of_width : Fraction
  pub cancellation_timeout : ℤ
  pub cancellation_poll : ℤ
  pub maximum_attempts : ℕ

-- `WalkPolicy.__post_init__`. A fraction that is not negative is all that a `Fraction` can be.
unfoldable pub make_policy : WalkPolicy → Result PolicyError WalkPolicy
make_policy p = do
  refuse_if (ltb p.maximum_attempts 1) PolicyError.no_attempts
  refuse_if (leb_ℤ p.dwell (pos 0)) PolicyError.dwell_not_positive
  refuse_if (leb_ℤ p.cancellation_timeout (pos 0)) PolicyError.timeout_not_positive
  refuse_if (leb_ℤ p.cancellation_poll (pos 0)) PolicyError.poll_not_positive
  refuse_if (leb_ℤ p.minimum_credit (pos 0)) PolicyError.credit_not_positive
  refuse_if
      (not (
        ltb p.minimum_credit_fraction_of_width.numerator
          p.minimum_credit_fraction_of_width.denominator))
      PolicyError.fraction_out_of_range
  ok p

-- The set of the strikes.
unfoldable pub strikes : List OptionLegIntent → List ℤ
strikes [] = []
strikes (leg ∷ legs) =
    let others = strikes legs in
    if any (λ strike. eqb_ℤ strike leg.strike) others then others else leg.strike ∷ others

abbrev pub distance : List ℤ → Option ℕ
distance (a ∷ b ∷ []) = some (abs (a -ℤ b))
distance _ = none

-- `vertical_width` of proof.py.
unfoldable pub vertical_width : List OptionLegIntent → Option ℕ
vertical_width legs = distance (strikes legs)

-- Down to a whole tenth.
abbrev pub tenth : ℤ → ℤ
tenth (pos n) = pos (n / 10)
tenth (negsuc n) = negsuc (n / 10)

-- PROOF_MINIMUM_CREDIT and PROOF_ENVELOPE_ABSOLUTE_TOLERANCE; the fractional tolerance is a tenth.
abbrev pub lowest_credit : ℤ
lowest_credit = pos 2

abbrev pub absolute_tolerance : ℤ
absolute_tolerance = pos 10

-- `maximum`, below the width where it can be.
abbrev pub below_width : Option ℕ → ℤ → ℤ
below_width none maximum = maximum
below_width (some width) maximum =
    let ceiling = pos width -ℤ lowest_credit in
    if ltb_ℤ (pos 0) ceiling then min_ℤ maximum ceiling else maximum

-- `envelope_for` of proof.py.
unfoldable pub envelope_for : OptionStrategyIntent → PriceEnvelope
unfolding vertical_width
envelope_for intent =
    let reference = intent.limit_price in
    let tolerance = max_ℤ absolute_tolerance (tenth reference) in
    record {
      minimum = max_ℤ (reference -ℤ tolerance) lowest_credit;
      maximum = below_width (vertical_width intent.legs) (reference +ℤ tolerance);
    }

-- `PriceEnvelope.contains`
abbrev pub contains : PriceEnvelope → ℤ → Bool
contains envelope price = leb_ℤ envelope.minimum price && leb_ℤ price envelope.maximum

-- `width * fraction`, up to a whole quantum.
abbrev pub fraction_of : ℕ → Fraction → ℕ
fraction_of width f = (width * f.numerator + (f.denominator - 1)) / f.denominator

abbrev pub floor_of : WalkPolicy → Option ℕ → ℤ
floor_of p none = p.minimum_credit
floor_of p (some width) =
    max_ℤ p.minimum_credit (pos (fraction_of width p.minimum_credit_fraction_of_width))

-- `WalkPolicy.floor_for`
unfoldable pub floor_for : WalkPolicy → OptionStrategyIntent → ℤ
unfolding vertical_width
floor_for p intent = floor_of p (vertical_width intent.legs)

-- What `reprice` raises; `structure` is a refusal of the domain.
pub data RepriceError : Type 0 where
  not_an_opening not_a_credit quantity_not_positive grown : RepriceError
  structure : Refusal → RepriceError

abbrev pub from_domain : {A : Type 0} → Result Refusal A → Result RepriceError A
from_domain (err cause) = err (RepriceError.structure cause)
from_domain (ok value) = ok value

abbrev pub repriced : OptionStrategyIntent → ℤ → ℕ → ℤ → OptionStrategyIntent
repriced intent credit quantity maximum_loss = record {
  strategy_id = intent.strategy_id;
  strategy_type = intent.strategy_type;
  strategy_action = StrategyAction.opening;
  underlying = intent.underlying;
  quantity = quantity;
  legs = intent.legs;
  expiration = intent.expiration;
  limit_price = credit;
  price_effect = PriceEffect.credit;
  maximum_loss_per_contract = maximum_loss;
  configuration_version = intent.configuration_version;
  created_at_aware = true;
  estimated_buying_power_change = none;
  closes_strategy_id = none;
}

-- `reprice`: the times of the walk's clock carry their zone.
unfoldable pub reprice : OptionStrategyIntent → ℤ → ℕ → Result RepriceError OptionStrategyIntent
reprice intent credit quantity = do
  refuse_if (not (is_opening intent.strategy_action)) RepriceError.not_an_opening
  refuse_if (not (is_credit intent.price_effect)) RepriceError.not_a_credit
  refuse_if (quantity == 0) RepriceError.quantity_not_positive
  refuse_if (ltb intent.quantity quantity) RepriceError.grown
  maximum_loss ← from_domain (
      compute_maximum_loss_per_contract intent.strategy_type intent.legs credit
        (first_multiplier intent.legs))
  from_domain (make_intent (repriced intent credit quantity maximum_loss))
