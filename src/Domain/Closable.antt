-- ===== src/Domain/Closable.antt =====
-- engine/src/engine/options/domain.py: an accepted opening strategy can always be closed.
use mathlib.Core.List.{map}
use ibkr_strategy_engine.Prelude.{
  suc, ℕ, ◌≤◌, ◌<◌, pos, ◌<ℤ◌, ltb, ◌≡◌, refl, ap, sym, ◌∙◌, Bool, true, false, ◌&&◌, ◌==◌, none,
  some, is_some, List, [], ◌∷◌, is_empty, length, select, all, All, arith, str_eq,
}
use ibkr_strategy_engine.Prelude.Result.{ok}
use ibkr_strategy_engine.Domain.Legs.{
  OptionRight, OrderAction, StrategyAction, StrategyType, PriceEffect, OptionLegIntent,
  OptionStrategyIntent, make_leg, inverted, invert_action, sole, sole_of, is_short, is_long,
  is_sell, is_buy, is_put, is_call,
}
use ibkr_strategy_engine.Domain.Payoff.{in_class}
use ibkr_strategy_engine.Domain.Checks.{
  check_scalars, one_value, check_legs_are_coherent, shorts, longs, check_condor, check_vertical,
  check_shape, check_lifecycle, make_intent, make_intent-Accepted, key,
}
use ibkr_strategy_engine.Domain.Closing.{invert_all, CloseRequest, closing_intent}
use ibkr_strategy_engine.Domain.Retire.{flip, con_ids-flip}

-- Legs that construction returned.
abbrev AreMade : List OptionLegIntent → Type 0
AreMade = All (λ leg. make_leg leg ≡ ok leg)

make_leg-flip :
    (leg : OptionLegIntent) → make_leg leg ≡ ok leg → make_leg (flip leg) ≡ ok (flip leg)
unfolding make_leg
make_leg-flip leg h = ground arith

invert_all_total :
    (legs : List OptionLegIntent) → AreMade legs → invert_all legs ≡ ok (map flip legs)
unfolding invert_all inverted
invert_all_total [] h = refl
invert_all_total (leg ∷ legs) h = rw (make_leg-flip leg h.0) (rw (invert_all_total legs h.1))

length-flip : (legs : List OptionLegIntent) → length (map flip legs) ≡ length legs
length-flip [] = refl
length-flip (leg ∷ legs) = ap suc (length-flip legs)

all-flip :
    (p : OptionLegIntent → Bool) (legs : List OptionLegIntent)
    → all p (map flip legs) ≡ all (λ leg. p (flip leg)) legs
all-flip p [] = refl
all-flip p (leg ∷ legs) = ap (◌&&◌ (p (flip leg))) (all-flip p legs)

expiration-flip :
    (legs : List OptionLegIntent)
    → one_value (λ leg. leg.expiration) (map flip legs) ≡ one_value (λ leg. leg.expiration) legs
expiration-flip [] = refl
expiration-flip (leg ∷ legs) = all-flip (λ other. other.expiration == leg.expiration) legs

multiplier-flip :
    (legs : List OptionLegIntent)
    → one_value (λ leg. leg.multiplier) (map flip legs) ≡ one_value (λ leg. leg.multiplier) legs
multiplier-flip [] = refl
multiplier-flip (leg ∷ legs) = all-flip (λ other. other.multiplier == leg.multiplier) legs

length-select-flip :
    (p q : OptionLegIntent → Bool) (legs : List OptionLegIntent)
    → ((leg : OptionLegIntent) → p (flip leg) ≡ q leg)
    → length (select p (map flip legs)) ≡ length (select q legs)
length-select-flip p q [] h = refl
length-select-flip p q (leg ∷ legs) h = ground (arith, h leg, length-select-flip p q legs h)

is_some-sole_of : (xs : List OptionLegIntent) → is_some (sole_of xs) ≡ (length xs == 1)
is_some-sole_of [] = refl
is_some-sole_of (x ∷ []) = refl
is_some-sole_of (x ∷ y ∷ xs) = ground arith

in_class-flip :
    (r : OptionRight) (a : OrderAction) (leg : OptionLegIntent)
    → in_class r a (flip leg) ≡ in_class r (invert_action a) leg
in_class-flip r a leg = ground arith

is_some-sole-flip :
    (legs : List OptionLegIntent) (r : OptionRight) (a : OrderAction)
    → is_some (sole (map flip legs) r a) ≡ is_some (sole legs r (invert_action a))
unfolding sole
is_some-sole-flip legs r a =
    is_some-sole_of (select (in_class r a) (map flip legs))
    ∙ ap (λ (n : ℕ). n == 1)
        (length-select-flip (in_class r a) (in_class r (invert_action a)) legs (in_class-flip r a))
    ∙ sym (is_some-sole_of (select (in_class r (invert_action a)) legs))

shorts-flip : (legs : List OptionLegIntent) → length (shorts (map flip legs)) ≡ length (longs legs)
shorts-flip legs = length-select-flip is_short is_long legs (λ leg. sell_of_buy leg.action)
  where
    sell_of_buy : (a : OrderAction) → is_sell (invert_action a) ≡ is_buy a
    sell_of_buy OrderAction.buy = refl
    sell_of_buy OrderAction.sell = refl

longs-flip : (legs : List OptionLegIntent) → length (longs (map flip legs)) ≡ length (shorts legs)
longs-flip legs = length-select-flip is_long is_short legs (λ leg. buy_of_sell leg.action)
  where
    buy_of_sell : (a : OrderAction) → is_buy (invert_action a) ≡ is_sell a
    buy_of_sell OrderAction.buy = refl
    buy_of_sell OrderAction.sell = refl

check_condor-flip :
    (legs : List OptionLegIntent) → check_condor legs ≡ ok tt → check_condor (map flip legs) ≡ ok tt
unfolding check_condor
check_condor-flip legs h =
    rw
      (
        length-flip legs,
        shorts-flip legs,
        longs-flip legs,
        is_some-sole-flip legs OptionRight.put OrderAction.sell,
        is_some-sole-flip legs OptionRight.put OrderAction.buy,
        is_some-sole-flip legs OptionRight.call OrderAction.sell,
        is_some-sole-flip legs OptionRight.call OrderAction.buy,
      )
      (ground arith)

check_vertical-flip :
    (required : OptionRight → Bool) (legs : List OptionLegIntent)
    → check_vertical required legs ≡ ok tt
    → check_vertical required (map flip legs) ≡ ok tt
unfolding check_vertical
check_vertical-flip required legs h =
    rw
      (
        length-flip legs,
        shorts-flip legs,
        longs-flip legs,
        all-flip (λ leg. required leg.right) legs,
      )
      (ground arith)

check_shape-flip :
    (k : StrategyType) (legs : List OptionLegIntent)
    → check_shape k legs ≡ ok tt
    → check_shape k (map flip legs) ≡ ok tt
unfolding check_shape
check_shape-flip StrategyType.iron_condor legs h = check_condor-flip legs h
check_shape-flip StrategyType.put_credit_spread legs h = check_vertical-flip is_put legs h
check_shape-flip StrategyType.call_credit_spread legs h = check_vertical-flip is_call legs h

-- The closing order of `s` for the request `r`, its legs inverted.
abbrev pub close_of : OptionStrategyIntent → CloseRequest → OptionStrategyIntent
close_of s r = record {
  strategy_id = r.strategy_id;
  strategy_type = s.strategy_type;
  strategy_action = StrategyAction.closing;
  underlying = s.underlying;
  quantity = r.quantity;
  legs = map flip s.legs;
  expiration = s.expiration;
  limit_price = r.limit_price;
  price_effect = PriceEffect.debit;
  maximum_loss_per_contract = s.maximum_loss_per_contract;
  configuration_version = r.configuration_version;
  created_at_aware = r.created_at_aware;
  estimated_buying_power_change = none;
  closes_strategy_id = some s.strategy_id;
}

coherent-flip :
    (s : OptionStrategyIntent) (r : CloseRequest)
    → check_legs_are_coherent s ≡ ok tt
    → check_legs_are_coherent (close_of s r) ≡ ok tt
unfolding check_legs_are_coherent
coherent-flip s r h =
    rw
      (
        length-flip s.legs,
        con_ids-flip s.legs,
        all-flip (λ leg. str_eq (key leg.symbol) (key s.underlying)) s.legs,
        expiration-flip s.legs,
        all-flip (λ leg. leg.expiration == s.expiration) s.legs,
        multiplier-flip s.legs,
        all-flip (λ leg. leg.ratio == 1) s.legs,
      )
      (ground arith)

scalars-flip :
    (s : OptionStrategyIntent) (r : CloseRequest)
    → check_scalars s ≡ ok tt
    → 0 < r.quantity
    → pos 0 <ℤ r.limit_price
    → r.created_at_aware ≡ true
    → is_empty r.configuration_version ≡ false
    → check_scalars (close_of s r) ≡ ok tt
unfolding check_scalars
scalars-flip s r h q l aware version = ground arith

-- A strategy of constructed legs that construction accepted as an opening one can be closed, for any
-- positive quantity up to its own, at any positive price, at an aware time and under a named
-- configuration: the closing order is built, and it is the one with the legs inverted.
pub closing_intent_total :
    (s : OptionStrategyIntent) (r : CloseRequest)
    → make_intent s ≡ ok s
    → AreMade s.legs
    → s.strategy_action ≡ StrategyAction.opening
    → 0 < r.quantity
    → r.quantity ≤ s.quantity
    → pos 0 <ℤ r.limit_price
    → r.created_at_aware ≡ true
    → is_empty r.configuration_version ≡ false
    → closing_intent s r ≡ ok (close_of s r)
unfolding closing_intent make_intent check_lifecycle
closing_intent_total s r made legs opens q fits l aware version =
    let good = (make_intent-Accepted s s made).1 in
    rw opens (
      rw (
        zero_test r.quantity q,
        fits_test s.quantity r.quantity fits,
        invert_all_total s.legs legs,
        scalars-flip s r good.scalars q l aware version,
        coherent-flip s r good.coherent,
        check_shape-flip s.strategy_type s.legs good.shape,
      ))
  where
    zero_test : (n : ℕ) → 0 < n → (n == 0) ≡ false
    zero_test n h = ground arith

    fits_test : (n m : ℕ) → m ≤ n → ltb n m ≡ false
    fits_test n m h = ground arith
