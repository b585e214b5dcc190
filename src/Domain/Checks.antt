-- ===== src/Domain/Checks.antt =====
-- engine/src/engine/options/domain.py: `OptionStrategyIntent.__post_init__`.
use ibkr_strategy_engine.Prelude.{
  arith, ◌≡◌, ℕ, pos, String, Bool, true, false, not, ◌&&◌, ◌||◌, ◌==◌, ltb, ltb_ℤ, leb_ℤ, eqb_ℤ,
  str_eq, Option, some, is_some, List, [], ◌∷◌, is_empty, strip, upper, length, select, all, any,
  sum_by, if◌then◌else◌,
}
use ibkr_strategy_engine.Prelude.Result.{Result, ok, ◌>>=◌, ◌>>◌, refuse_if}
use ibkr_strategy_engine.Domain.Legs.{
  OptionRight, OrderAction, StrategyAction, StrategyType, PriceEffect, Refusal, OptionLegIntent,
  OptionStrategyIntent, sole, is_short, is_long, is_call, is_put, first_multiplier,
}
use ibkr_strategy_engine.Domain.Loss.{compute_maximum_loss_per_contract}

unfoldable pub check_scalars : OptionStrategyIntent → Result Refusal Unit
check_scalars s = do
  refuse_if (is_empty (strip s.underlying)) Refusal.underlying_empty
  refuse_if (s.quantity == 0) Refusal.quantity_not_positive
  refuse_if (leb_ℤ s.limit_price (pos 0)) Refusal.limit_not_positive
  refuse_if (ltb_ℤ s.maximum_loss_per_contract (pos 0)) Refusal.loss_negative
  refuse_if (is_empty s.configuration_version) Refusal.version_empty
  refuse_if (not s.created_at_aware) Refusal.created_at_naive

-- `len(set(xs)) == len(xs)`
unfoldable pub distinct : List ℕ → Bool
distinct [] = true
distinct (x ∷ xs) = not (any (λ y. x == y) xs) && distinct xs

unfoldable pub con_ids : List OptionLegIntent → List ℕ
con_ids [] = []
con_ids (leg ∷ legs) = leg.con_id ∷ con_ids legs

-- The members of the set of one field's values are all the first leg's.
abbrev pub one_value : (OptionLegIntent → ℕ) → List OptionLegIntent → Bool
one_value f [] = false
one_value f (leg ∷ legs) = all (λ other. f other == f leg) legs

abbrev pub key : String → String
key symbol = upper (strip symbol)

unfoldable pub check_legs_are_coherent : OptionStrategyIntent → Result Refusal Unit
check_legs_are_coherent s = do
  refuse_if (length s.legs == 0) Refusal.no_legs
  refuse_if (not (distinct (con_ids s.legs))) Refusal.duplicate_contract
  refuse_if (not (all (λ leg. str_eq (key leg.symbol) (key s.underlying)) s.legs))
      Refusal.foreign_underlying
  refuse_if (not (one_value (λ leg. leg.expiration) s.legs)) Refusal.mixed_expirations
  refuse_if (not (all (λ leg. leg.expiration == s.expiration) s.legs)) Refusal.wrong_expiration
  refuse_if (not (one_value (λ leg. leg.multiplier) s.legs)) Refusal.mixed_multipliers
  refuse_if (not (all (λ leg. leg.ratio == 1) s.legs)) Refusal.ratio_not_one

abbrev pub shorts : List OptionLegIntent → List OptionLegIntent
shorts = select is_short

abbrev pub longs : List OptionLegIntent → List OptionLegIntent
longs = select is_long

-- `_check_shape` for an iron condor, and for a vertical with the right that it requires.
unfoldable pub check_condor : List OptionLegIntent → Result Refusal Unit
check_condor legs = do
  refuse_if (not (length legs == 4)) Refusal.leg_count
  refuse_if (not (length (shorts legs) == 2) || not (length (longs legs) == 2)) Refusal.condor_sides
  refuse_if (not (is_some (sole legs OptionRight.put OrderAction.sell))) Refusal.condor_rights
  refuse_if (not (is_some (sole legs OptionRight.put OrderAction.buy))) Refusal.condor_rights
  refuse_if (not (is_some (sole legs OptionRight.call OrderAction.sell))) Refusal.condor_rights
  refuse_if (not (is_some (sole legs OptionRight.call OrderAction.buy))) Refusal.condor_rights

unfoldable pub check_vertical : (OptionRight → Bool) → List OptionLegIntent → Result Refusal Unit
check_vertical required legs = do
  refuse_if (not (length legs == 2)) Refusal.leg_count
  refuse_if (not (length (shorts legs) == 1) || not (length (longs legs) == 1)) Refusal.spread_sides
  refuse_if (not (all (λ leg. required leg.right) legs)) Refusal.spread_rights

unfoldable pub check_shape : StrategyType → List OptionLegIntent → Result Refusal Unit
unfolding check_condor check_vertical
check_shape StrategyType.iron_condor legs = check_condor legs
check_shape StrategyType.put_credit_spread legs = check_vertical is_put legs
check_shape StrategyType.call_credit_spread legs = check_vertical is_call legs

-- Both legs are there, and the strike of the first is at or above that of the second.
abbrev pub at_or_above : Option OptionLegIntent → Option OptionLegIntent → Bool
at_or_above (some a) (some b) = leb_ℤ b.strike a.strike
at_or_above _ _ = false

abbrev pub is_condor : StrategyType → Bool
is_condor StrategyType.iron_condor = true
is_condor _ = false

unfoldable pub check_strike_ordering : StrategyType → List OptionLegIntent → Result Refusal Unit
check_strike_ordering strategy_type legs = do
  let short_put = sole legs OptionRight.put OrderAction.sell
  let long_put = sole legs OptionRight.put OrderAction.buy
  let short_call = sole legs OptionRight.call OrderAction.sell
  let long_call = sole legs OptionRight.call OrderAction.buy
  refuse_if (at_or_above long_put short_put) Refusal.put_wing_reversed
  refuse_if (at_or_above short_call long_call) Refusal.call_wing_reversed
  refuse_if (is_condor strategy_type && at_or_above short_put short_call)
      Refusal.short_strikes_inverted

abbrev pub is_credit : PriceEffect → Bool
is_credit PriceEffect.credit = true
is_credit PriceEffect.debit = false

abbrev pub is_opening : StrategyAction → Bool
is_opening StrategyAction.opening = true
is_opening _ = false

abbrev lifecycle_of : StrategyAction → PriceEffect → Option String → Result Refusal Unit
lifecycle_of StrategyAction.opening effect closes = do
  refuse_if (is_some closes) Refusal.open_names_close
  refuse_if (not (is_credit effect)) Refusal.open_not_credit
lifecycle_of StrategyAction.closing effect closes = do
  refuse_if (not (is_some closes)) Refusal.close_names_nothing
  refuse_if (is_credit effect) Refusal.close_not_debit
lifecycle_of StrategyAction.rolling effect closes =
    refuse_if (not (is_some closes)) Refusal.close_names_nothing

unfoldable pub check_lifecycle : OptionStrategyIntent → Result Refusal Unit
check_lifecycle s = lifecycle_of s.strategy_action s.price_effect s.closes_strategy_id

-- The ratios of the legs of one right on one side, summed.
abbrev total_ratio : (OptionLegIntent → Bool) → List OptionLegIntent → ℕ
total_ratio p legs = sum_by (λ leg. leg.ratio) (select p legs)

-- Too few long against the short of one right.
abbrev is_uncovered : (OptionRight → Bool) → List OptionLegIntent → Bool
is_uncovered right legs =
    let short_ratio = total_ratio (λ leg. right leg.right && is_short leg) legs in
    let long_ratio = total_ratio (λ leg. right leg.right && is_long leg) legs in
    not (short_ratio == 0) && ltb long_ratio short_ratio

unfoldable pub check_every_short_is_covered : List OptionLegIntent → Result Refusal Unit
check_every_short_is_covered legs = do
  refuse_if (is_uncovered is_put legs) Refusal.uncovered_put
  refuse_if (is_uncovered is_call legs) Refusal.uncovered_call

unfoldable pub check_maximum_loss : OptionStrategyIntent → Result Refusal Unit
check_maximum_loss s = do
  computed ←
      compute_maximum_loss_per_contract s.strategy_type s.legs s.limit_price
        (first_multiplier s.legs)
  refuse_if (not (eqb_ℤ computed s.maximum_loss_per_contract)) Refusal.loss_mismatch

-- The checks that only an opening position undergoes.
unfoldable pub check_opening : OptionStrategyIntent → Result Refusal Unit
check_opening s = do
  check_strike_ordering s.strategy_type s.legs
  check_every_short_is_covered s.legs
  check_maximum_loss s

-- `__post_init__`: what construction returns.
unfoldable pub make_intent : OptionStrategyIntent → Result Refusal OptionStrategyIntent
make_intent s = do
  check_scalars s
  check_legs_are_coherent s
  check_shape s.strategy_type s.legs
  check_lifecycle s
  (if is_opening s.strategy_action then check_opening s else ok tt)
  ok s

-- What construction has checked of a strategy that it returned.
pub record Accepted (s : OptionStrategyIntent) : Type 0 where
  pub scalars : check_scalars s ≡ ok tt
  pub coherent : check_legs_are_coherent s ≡ ok tt
  pub shape : check_shape s.strategy_type s.legs ≡ ok tt
  pub lifecycle : check_lifecycle s ≡ ok tt
  pub opened : is_opening s.strategy_action ≡ true → check_opening s ≡ ok tt

pub make_intent-Accepted :
    (s t : OptionStrategyIntent) → make_intent s ≡ ok t → (s ≡ t) × Accepted s
unfolding make_intent
make_intent-Accepted s t h = ground arith
