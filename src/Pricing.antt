-- ===== src/Pricing.antt =====
-- engine/src/engine/options/pricing.py: the tick grid and the price of a structure in a book. An amount
-- is an integer number of a quantum that halves every quote, so midpoints are exact.

pub mod Regimes
pub mod Grid
pub mod Ladder
pub mod Rungs
pub mod Band
pub mod Total
mod Examples
use ibkr_strategy_engine.Prelude.{
  ℕ, ◌+◌, ◌-◌, ◌*◌, ◌/◌, ◌%◌, ◌==◌, ltb, ltb_ℤ, ℤ, pos, negsuc, ◌+ℤ◌, ◌-ℤ◌, ◌*ℤ◌, String, str_eq,
  not, ◌||◌, Option, none, some, List, [], ◌∷◌, any, is_empty, strip, upper, if◌then◌else◌,
}
use ibkr_strategy_engine.Prelude.Result.{Result, ok, err, ◌>>=◌, ◌>>◌, refuse_if}
use ibkr_strategy_engine.Domain.Legs.{OptionLegIntent, is_short}

pub data PricingError : Type 0 where
  unnamed_regime not_positive inverted_regime off_boundary : PricingError
  negative_price not_quantizable not_a_credit not_decreasing outside_band : PricingError

pub record TickRegime : Type 0 where
  pub name : String
  pub below : ℕ
  pub at_or_above : ℕ
  pub boundary : ℕ

-- `TickRegime.__post_init__`
pub make_regime : TickRegime → Result PricingError TickRegime
make_regime r = do
  refuse_if (is_empty (strip r.name)) PricingError.unnamed_regime
  refuse_if (r.below == 0 || r.at_or_above == 0 || r.boundary == 0) PricingError.not_positive
  refuse_if (ltb r.at_or_above r.below) PricingError.inverted_regime
  refuse_if (not (r.boundary % r.below == 0)) PricingError.off_boundary
  refuse_if (not (r.boundary % r.at_or_above == 0)) PricingError.off_boundary
  ok r

abbrev pub increment_for : TickRegime → ℕ → ℕ
increment_for r price = if ltb price r.boundary then r.below else r.at_or_above

-- Amounts in half cents: the schedules of the exchanges, and `tick_regime_for`.
abbrev pub penny_throughout : TickRegime
penny_throughout = record { name = "penny-throughout"; below = 2; at_or_above = 2; boundary = 600 }

abbrev pub standard_increments : TickRegime
standard_increments = record { name = "standard"; below = 10; at_or_above = 20; boundary = 600 }

unfoldable pub tick_regime_for : String → TickRegime
tick_regime_for symbol =
    if any (str_eq (upper (strip symbol))) ("SPY" ∷ "QQQ" ∷ "IWM" ∷ [])
    then penny_throughout
    else standard_increments

pub data Rounding : Type 0 where
  floor ceiling : Rounding

-- The whole number of increments in a price, rounded.
abbrev pub rungs_in : Rounding → ℕ → ℕ → ℕ
rungs_in Rounding.floor price increment = price / increment
rungs_in Rounding.ceiling price increment = (price + (increment - 1)) / increment

unfoldable pub quantize : TickRegime → Rounding → ℕ → Result PricingError ℕ
quantize r rounding price = do
  refuse_if (increment_for r price == 0) PricingError.not_quantizable
  ok (rungs_in rounding price (increment_for r price) * increment_for r price)

-- `quantize_credit`
unfoldable pub quantize_credit : TickRegime → Rounding → ℤ → Result PricingError ℕ
unfolding quantize
quantize_credit r rounding (pos price) = quantize r rounding price
quantize_credit r rounding (negsuc _) = err PricingError.negative_price

pub record OptionQuote : Type 0 where
  pub con_id : ℕ
  pub bid : Option ℤ
  pub ask : Option ℤ

-- `quotes.get(con_id)` of the dictionary of the snapshot's legs: the last quote of a contract counts.
unfoldable pub quote_for : List OptionQuote → ℕ → Option OptionQuote
quote_for [] con_id = none
quote_for (q ∷ quotes) con_id = elim (quote_for quotes con_id) [
  | some later ↦ some later
  | none ↦ if q.con_id == con_id then some q else none
]

abbrev pub half : ℤ → ℤ
half (pos n) = pos (n / 2)
half (negsuc n) = negsuc (n / 2)

abbrev mid_of : Option ℤ → Option ℤ → Option ℤ
mid_of (some bid) (some ask) = some (half (bid +ℤ ask))
mid_of _ _ = none

-- `OptionQuote.mid`
abbrev pub mid : OptionQuote → Option ℤ
mid q = mid_of q.bid q.ask

-- The price at which a leg is valued: refused where there is none, or a negative one.
abbrev usable : Option ℤ → Option ℤ
usable none = none
usable (some price) = if ltb_ℤ price (pos 0) then none else some price

abbrev on_quote : (OptionQuote → Option ℤ) → Option OptionQuote → Option ℤ
on_quote value none = none
on_quote value (some q) = usable (value q)

abbrev add_leg : OptionLegIntent → Option ℤ → Option ℤ → Option ℤ
add_leg leg (some price) (some rest) =
    some (if is_short leg then rest +ℤ price *ℤ leg.ratio else rest -ℤ price *ℤ leg.ratio)
add_leg leg _ _ = none

-- The sum over the legs of what they are worth, short legs positive.
unfoldable pub credit_of :
    (OptionLegIntent → OptionQuote → Option ℤ) → List OptionLegIntent → List OptionQuote → Option ℤ
unfolding quote_for
credit_of value [] quotes = some (pos 0)
credit_of value (leg ∷ legs) quotes =
    add_leg leg (on_quote (value leg) (quote_for quotes leg.con_id)) (credit_of value legs quotes)

abbrev pub natural_value : OptionLegIntent → OptionQuote → Option ℤ
natural_value leg q = if is_short leg then q.bid else q.ask

-- `snapshot is None` gives no price.
abbrev in_book : (List OptionQuote → Option ℤ) → Option (List OptionQuote) → Option ℤ
in_book f none = none
in_book f (some quotes) = f quotes

unfoldable pub natural_credit : List OptionLegIntent → Option (List OptionQuote) → Option ℤ
unfolding credit_of
natural_credit legs = in_book (credit_of natural_value legs)

-- `midpoint_credit`, which is `observed_credit` of proof.py.
unfoldable pub midpoint_credit : List OptionLegIntent → Option (List OptionQuote) → Option ℤ
unfolding credit_of
midpoint_credit legs = in_book (credit_of (λ _. mid) legs)
