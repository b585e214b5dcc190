-- ===== src/Walk/Repriced.antt =====
-- engine/src/engine/options/walk.py: what `reprice` returns.
use ibkr_strategy_engine.Prelude.{ℕ, ◌≤◌, ℤ, ◌≡◌, sym, ap, subst, arith, not, ltb, ◌==◌}
use ibkr_strategy_engine.Prelude.Result.{Result, ok, err, refuse_if, >>-eq-ok, >>=-eq-ok}
use ibkr_strategy_engine.Domain.Legs.{OptionStrategyIntent, Refusal, first_multiplier}
use ibkr_strategy_engine.Domain.Loss.{compute_maximum_loss_per_contract}
use ibkr_strategy_engine.Domain.Checks.{is_credit, is_opening, make_intent, make_intent-Accepted}
use ibkr_strategy_engine.Walk.{RepriceError, from_domain, repriced, reprice}

from_domain_ok : {A : Type 0} (m : Result Refusal A) (a : A) → from_domain m ≡ ok a → m ≡ ok a
from_domain_ok (ok b) a h = ground arith
from_domain_ok (err cause) a h = ground arith

pub reprice_ok :
    (intent candidate : OptionStrategyIntent) (price : ℤ) (quantity : ℕ)
    → reprice intent price quantity ≡ ok candidate
    → (candidate.quantity ≡ quantity)
      × (quantity ≤ intent.quantity)
      × (make_intent candidate ≡ ok candidate)
unfolding reprice
reprice_ok intent candidate price quantity h =
    let (opening, h1) =
      >>-eq-ok (refuse_if (not (is_opening intent.strategy_action)) RepriceError.not_an_opening) _
        h in
    let (credit, h2) =
      >>-eq-ok (refuse_if (not (is_credit intent.price_effect)) RepriceError.not_a_credit) _ h1 in
    let (positive, h3) =
      >>-eq-ok (refuse_if (quantity == 0) RepriceError.quantity_not_positive) _ h2 in
    let (size, h4) = >>-eq-ok (refuse_if (ltb intent.quantity quantity) RepriceError.grown) _ h3 in
    let (loss, found, h5) =
      >>=-eq-ok
        (from_domain (
          compute_maximum_loss_per_contract intent.strategy_type intent.legs price
            (first_multiplier intent.legs)))
        _ h4 in
    let made = from_domain_ok (make_intent (repriced intent price quantity loss)) candidate h5 in
    let (same, accepted) =
      make_intent-Accepted (repriced intent price quantity loss) candidate made in
    (
      ap (λ (s : OptionStrategyIntent). s.quantity) (sym same),
      not_grown intent.quantity quantity size,
      subst (λ (s : OptionStrategyIntent). make_intent s ≡ ok candidate) same made,
    )
  where
    not_grown : (a b : ℕ) → refuse_if (ltb a b) RepriceError.grown ≡ ok tt → b ≤ a
    not_grown a b e = ground arith
