-- ===== src/Domain/Legs.antt =====
-- engine/src/engine/options/domain.py: the vocabulary, one leg, and the record of a strategy.
-- The `isinstance` tests are the types of the fields; an `int` that must be positive is a natural
-- number, 0 standing for what is refused; a `Decimal` is an integer number of a common quantum, and
-- a date its ordinal. A UUID is its text.
use ibkr_strategy_engine.Prelude.{
  ◌≡◌, arith, ℕ, ℤ, pos, String, Bool, true, false, Option, none, some, List, [], ◌∷◌, ◌&&◌, ◌==◌,
  leb_ℤ, is_empty, strip, select,
}
use ibkr_strategy_engine.Prelude.Result.{Result, ok, ◌>>◌, refuse_if}

pub data OptionRight : Type 0 where
  call put : OptionRight

pub data OrderAction : Type 0 where
  buy sell : OrderAction

-- OPEN, CLOSE and ROLL.
pub data StrategyAction : Type 0 where
  opening closing rolling : StrategyAction

pub data StrategyType : Type 0 where
  put_credit_spread call_credit_spread iron_condor : StrategyType

pub data PriceEffect : Type 0 where
  credit debit : PriceEffect

-- The causes with which `_refuse` is called.
pub data Refusal : Type 0 where
  con_id_not_positive symbol_empty strike_not_positive ratio_not_positive : Refusal
  multiplier_not_positive exchange_empty : Refusal
  credit_not_positive put_legs_missing call_legs_missing condor_legs_missing : Refusal
  width_not_positive credit_not_below_width : Refusal
  underlying_empty quantity_not_positive limit_not_positive loss_negative : Refusal
  version_empty created_at_naive : Refusal
  no_legs duplicate_contract foreign_underlying mixed_expirations wrong_expiration : Refusal
  mixed_multipliers ratio_not_one : Refusal
  leg_count condor_sides condor_rights spread_sides spread_rights : Refusal
  put_wing_reversed call_wing_reversed short_strikes_inverted : Refusal
  open_names_close open_not_credit close_names_nothing close_not_debit : Refusal
  uncovered_put uncovered_call loss_mismatch : Refusal
  not_an_open close_too_large : Refusal

pub record OptionLegIntent : Type 0 where
  pub con_id : ℕ
  pub symbol : String
  pub expiration : ℕ
  pub strike : ℤ
  pub right : OptionRight
  pub action : OrderAction
  pub ratio : ℕ
  pub multiplier : ℕ
  pub exchange : String
  pub trading_class : Option String

-- `OptionLegIntent.__post_init__`
unfoldable pub make_leg : OptionLegIntent → Result Refusal OptionLegIntent
make_leg leg = do
  refuse_if (leg.con_id == 0) Refusal.con_id_not_positive
  refuse_if (is_empty (strip leg.symbol)) Refusal.symbol_empty
  refuse_if (leb_ℤ leg.strike (pos 0)) Refusal.strike_not_positive
  refuse_if (leg.ratio == 0) Refusal.ratio_not_positive
  refuse_if (leg.multiplier == 0) Refusal.multiplier_not_positive
  refuse_if (is_empty (strip leg.exchange)) Refusal.exchange_empty
  ok leg

-- Construction returns the leg that it was given.
pub make_leg_same : (leg l : OptionLegIntent) → make_leg leg ≡ ok l → l ≡ leg
unfolding make_leg
make_leg_same leg l h = ground arith

abbrev pub is_call : OptionRight → Bool
is_call OptionRight.call = true
is_call OptionRight.put = false

abbrev pub is_put : OptionRight → Bool
is_put OptionRight.call = false
is_put OptionRight.put = true

abbrev pub is_sell : OrderAction → Bool
is_sell OrderAction.sell = true
is_sell OrderAction.buy = false

abbrev pub is_buy : OrderAction → Bool
is_buy OrderAction.sell = false
is_buy OrderAction.buy = true

-- `a is b` on rights and on actions.
abbrev pub same_right : OptionRight → OptionRight → Bool
same_right OptionRight.call r = is_call r
same_right OptionRight.put r = is_put r

abbrev pub same_action : OrderAction → OrderAction → Bool
same_action OrderAction.buy a = is_buy a
same_action OrderAction.sell a = is_sell a

abbrev pub is_short : OptionLegIntent → Bool
is_short leg = is_sell leg.action

abbrev pub is_long : OptionLegIntent → Bool
is_long leg = is_buy leg.action

-- `OrderAction.inverted`
abbrev pub invert_action : OrderAction → OrderAction
invert_action OrderAction.buy = OrderAction.sell
invert_action OrderAction.sell = OrderAction.buy

-- `OptionLegIntent.inverted`: the same contract, traded the other way.
unfoldable pub inverted : OptionLegIntent → Result Refusal OptionLegIntent
unfolding make_leg
inverted leg = make_leg (record leg { action = invert_action leg.action })

abbrev pub sole_of : List OptionLegIntent → Option OptionLegIntent
sole_of (leg ∷ []) = some leg
sole_of _ = none

-- `_sole`: the single leg with this right and action.
unfoldable pub sole : List OptionLegIntent → OptionRight → OrderAction → Option OptionLegIntent
sole legs right action =
    sole_of (select (λ leg. same_right right leg.right && same_action action leg.action) legs)

pub record OptionStrategyIntent : Type 0 where
  pub strategy_id : String
  pub strategy_type : StrategyType
  pub strategy_action : StrategyAction
  pub underlying : String
  pub quantity : ℕ
  pub legs : List OptionLegIntent
  pub expiration : ℕ
  pub limit_price : ℤ
  pub price_effect : PriceEffect
  pub maximum_loss_per_contract : ℤ
  pub configuration_version : String
  pub created_at_aware : Bool
  pub estimated_buying_power_change : Option ℤ
  pub closes_strategy_id : Option String

-- The property `multiplier`: that of the first leg, which the leg checks prove to be shared.
abbrev pub first_multiplier : List OptionLegIntent → ℕ
first_multiplier [] = 0
first_multiplier (leg ∷ _) = leg.multiplier
