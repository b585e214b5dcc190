-- ===== src/Pricing/Ladder.antt =====
-- engine/src/engine/options/pricing.py: `build_ladder`, the credits that one walk offers. `none` is the
-- book that cannot support a walk, `err` an exception.
use ibkr_strategy_engine.Prelude.{
  ℕ, ◌+◌, ◌-◌, ◌*◌, ◌/◌, ltb, leb, ℤ, pos, ◌-ℤ◌, ltb_ℤ, max_ℤ, String, Bool, true, false, not, ◌||◌,
  Option, none, some, List, [], ◌∷◌, if◌then◌else◌,
}
use ibkr_strategy_engine.Prelude.Result.{Result, ok, ◌>>=◌, ◌>>◌, refuse_if}
use ibkr_strategy_engine.Domain.Legs.{PriceEffect, OptionLegIntent}
use ibkr_strategy_engine.Domain.Checks.{is_credit}
use ibkr_strategy_engine.Pricing.{
  PricingError, TickRegime, tick_regime_for, Rounding, quantize_credit, OptionQuote, natural_credit,
  midpoint_credit,
}

-- `PriceEnvelope` of proof.py.
pub record PriceEnvelope : Type 0 where
  pub minimum : ℤ
  pub maximum : ℤ

-- How far toward the natural an attempt reaches.
pub record Fraction : Type 0 where
  pub numerator : ℕ
  pub denominator : ℕ

abbrev pub ladder_fractions : List Fraction
ladder_fractions =
    record { numerator = 0; denominator = 1 }
    ∷ record { numerator = 1; denominator = 3 }
    ∷ record { numerator = 2; denominator = 3 }
    ∷ record { numerator = 1; denominator = 1 }
    ∷ []

pub record PriceLadder : Type 0 where
  pub start : ℕ
  pub target : ℕ
  pub floor : ℕ
  pub ceiling : ℕ
  pub regime : TickRegime
  pub requested : List ℕ
  pub rungs : List ℕ

abbrev pub not_below : Option ℕ → ℕ → Bool
not_below none rung = false
not_below (some previous) rung = leb previous rung

-- The loop of `PriceLadder.__post_init__`, from the previous rung.
unfoldable pub check_rungs : ℕ → ℕ → Option ℕ → List ℕ → Result PricingError Unit
check_rungs low high previous [] = ok tt
check_rungs low high previous (rung ∷ rungs) = do
  refuse_if (not_below previous rung) PricingError.not_decreasing
  refuse_if (ltb rung low || ltb high rung) PricingError.outside_band
  check_rungs low high (some rung) rungs

abbrev pub make_ladder : PriceLadder → Result PricingError PriceLadder
make_ladder l = do check_rungs l.floor l.ceiling none l.rungs; ok l

abbrev pub min_ℤ : ℤ → ℤ → ℤ
min_ℤ a b = if ltb_ℤ b a then b else a

-- `start - span * fraction`, in whole quanta: rounding down loses nothing before the grid does.
abbrev pub conceded : ℕ → ℕ → Fraction → ℤ
conceded start span f =
    pos start -ℤ pos ((span * f.numerator + (f.denominator - 1)) / f.denominator)

unfoldable pub requested_rungs : TickRegime → ℕ → ℕ → List Fraction → Result PricingError (List ℕ)
requested_rungs r start span [] = ok []
requested_rungs r start span (f ∷ fractions) = do
  rung ← quantize_credit r Rounding.floor (conceded start span f)
  rest ← requested_rungs r start span fractions
  ok (rung ∷ rest)

-- `min(max(rung, target), ceiling)`
abbrev pub clamp : ℕ → ℕ → ℕ → ℕ
clamp target high rung =
    let raised = if ltb rung target then target else rung in
    if ltb high raised then high else raised

-- The loop that drops a rung that offers nothing less than the one before it.
unfoldable pub add_rungs : ℕ → ℕ → Option ℕ → List ℕ → List ℕ
add_rungs target high last [] = []
add_rungs target high last (rung ∷ rungs) = elim (not_below last (clamp target high rung)) [
  | true ↦ add_rungs target high last rungs
  | false ↦ clamp target high rung ∷ add_rungs target high (some (clamp target high rung)) rungs
]

abbrev pub is_null : List ℕ → Bool
is_null [] = true
is_null _ = false

-- The band, and the two ends of the walk in it.
pub record Band : Type 0 where
  pub floor : ℕ
  pub ceiling : ℕ
  pub start : ℕ
  pub target : ℕ

abbrev pub ends : Band → Option Band
ends b =
    if ltb b.start b.floor || ltb b.ceiling b.start || ltb b.ceiling b.target
    then none
    else some (record b { target = if ltb b.start b.target then b.start else b.target })

unfoldable pub find_ends : TickRegime → ℕ → ℕ → ℤ → ℤ → Result PricingError (Option Band)
find_ends r low high midpoint natural = do
  start ← quantize_credit r Rounding.floor (min_ℤ midpoint (pos high))
  target ← quantize_credit r Rounding.ceiling (max_ℤ natural (pos low))
  ok (ends (record { floor = low; ceiling = high; start = start; target = target }))

unfoldable pub find_band :
    TickRegime → PriceEnvelope → ℤ → ℤ → ℤ → Result PricingError (Option Band)
find_band r envelope minimum_credit midpoint natural = do
  high ← quantize_credit r Rounding.floor envelope.maximum
  low ← quantize_credit r Rounding.ceiling (max_ℤ envelope.minimum minimum_credit)
  if ltb high low then ok none else find_ends r low high midpoint natural

-- No ladder without a rung.
unfoldable pub send_rungs : PriceLadder → Result PricingError (Option PriceLadder)
send_rungs l = if is_null l.rungs then ok none else (do ladder ← make_ladder l; ok (some ladder))

unfoldable pub climb :
    TickRegime → List Fraction → Option Band → Result PricingError (Option PriceLadder)
climb r fractions none = ok none
climb r fractions (some b) = do
  requested ← requested_rungs r b.start (b.start - b.target) fractions
  send_rungs (record {
    start = b.start;
    target = b.target;
    floor = b.floor;
    ceiling = b.ceiling;
    regime = r;
    requested = requested;
    rungs = add_rungs b.target b.ceiling none requested;
  })

unfoldable pub between :
    TickRegime
    → PriceEnvelope
    → ℤ
    → List Fraction
    → Option ℤ
    → Option ℤ
    → Result PricingError (Option PriceLadder)
between r envelope minimum_credit fractions (some midpoint) (some natural) =
    if ltb_ℤ midpoint natural
    then ok none
    else do band ← find_band r envelope minimum_credit midpoint natural; climb r fractions band
between r envelope minimum_credit fractions _ _ = ok none

-- `regime or tick_regime_for(intent.underlying)`
abbrev pub regime_or : Option TickRegime → String → TickRegime
regime_or none underlying = tick_regime_for underlying
regime_or (some r) underlying = r

unfoldable pub build_ladder :
    PriceEffect
    → List OptionLegIntent
    → String
    → Option (List OptionQuote)
    → PriceEnvelope
    → ℤ
    → Option TickRegime
    → List Fraction
    → Result PricingError (Option PriceLadder)
build_ladder effect legs underlying snapshot envelope minimum_credit regime fractions = do
  refuse_if (not (is_credit effect)) PricingError.not_a_credit
  between (regime_or regime underlying) envelope minimum_credit fractions
      (midpoint_credit legs snapshot) (natural_credit legs snapshot)
