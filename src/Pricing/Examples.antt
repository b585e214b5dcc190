-- ===== src/Pricing/Examples.antt =====
-- engine/src/engine/options/pricing.py: a walk down the nickel grid, in half cents.
use ibkr_strategy_engine.Prelude.{
  ◌≤◌, ℤ, pos, ◌≤ℤ◌, ◌+ℤ◌, ◌-ℤ◌, ◌*ℤ◌, ◌≡◌, refl, arith, none, some, List, [], ◌∷◌, strip,
}
use ibkr_strategy_engine.Prelude.Result.{ok}
use ibkr_strategy_engine.Domain.Legs.{PriceEffect}
use ibkr_strategy_engine.Domain.Examples.{short_put, long_put}
use ibkr_strategy_engine.Pricing.{
  TickRegime, make_regime, standard_increments, Rounding, quantize, quantize_credit, OptionQuote,
  quote_for, credit_of, natural_credit, midpoint_credit,
}
use ibkr_strategy_engine.Pricing.Regimes.{IsOnGrid}
use ibkr_strategy_engine.Pricing.Grid.{quantize_floor}
use ibkr_strategy_engine.Pricing.Ladder.{
  PriceEnvelope, PriceLadder, ladder_fractions, check_rungs, requested_rungs, add_rungs, find_ends,
  find_band, send_rungs, climb, between, build_ladder,
}
use ibkr_strategy_engine.Pricing.Band.{IsLadder, build_ladder-IsLadder}
use ibkr_strategy_engine.Pricing.Total.{Returns, build_ladder_total}

standard_made : make_regime standard_increments ≡ ok standard_increments
unfolding make_regime strip
standard_made = refl

-- The penny interval schedule: the boundary is in the upper tier.
abbrev interval : TickRegime
interval = record { name = "penny-interval"; below = 2; at_or_above = 10; boundary = 600 }

interval_made : make_regime interval ≡ ok interval
unfolding make_regime strip
interval_made = refl

boundary_test : quantize interval Rounding.floor 609 ≡ ok 600
unfolding quantize
boundary_test = refl

quantize_floor_example : IsOnGrid interval 600 × (600 ≤ 609) × (598 ≤ 600)
unfolding quantize
quantize_floor_example =
    quantize_floor interval interval 609 600 598 interval_made refl (299, refl) (omega arith)

-- The short put at 1.20 to 1.40, the long put at 0.30 to 0.50: a midpoint of 0.90 and a natural of 0.70.
abbrev book : List OptionQuote
book =
    record { con_id = 101; bid = some (pos 240); ask = some (pos 280) }
    ∷ record { con_id = 102; bid = some (pos 60); ask = some (pos 100) }
    ∷ []

abbrev envelope : PriceEnvelope
envelope = record { minimum = pos 150; maximum = pos 210 }

abbrev ladder : PriceLadder
ladder = record {
  start = 180;
  target = 150;
  floor = 150;
  ceiling = 210;
  regime = standard_increments;
  requested = 180 ∷ 170 ∷ 160 ∷ 150 ∷ [];
  rungs = 180 ∷ 170 ∷ 160 ∷ 150 ∷ [];
}

ladder_built :
    build_ladder PriceEffect.credit
      (short_put ∷ long_put ∷ [])
      "XYZ"
      (some book)
      envelope
      (pos 10)
      (some standard_increments)
      ladder_fractions
    ≡ ok (some ladder)
unfolding build_ladder between find_band find_ends climb send_rungs check_rungs requested_rungs
    add_rungs quantize_credit quantize natural_credit midpoint_credit credit_of quote_for ◌+ℤ◌ ◌-ℤ◌
    ◌*ℤ◌
ladder_built = refl

-- A crossed book supports no walk.
crossed_test :
    between standard_increments envelope (pos 10) ladder_fractions (some (pos 170)) (some (pos 171))
    ≡ ok none
unfolding between
crossed_test = refl

build_ladder-IsLadder_example :
    (midpoint : ℤ) × (midpoint_credit (short_put ∷ long_put ∷ []) (some book) ≡ some midpoint)
    × IsLadder standard_increments envelope (pos 10) midpoint ladder
build_ladder-IsLadder_example =
    build_ladder-IsLadder PriceEffect.credit (short_put ∷ long_put ∷ []) "XYZ" (some book) envelope
      (pos 10) (some standard_increments) ladder_fractions ladder standard_increments standard_made
      ladder_built

book_midpoint :
    (m : ℤ) → midpoint_credit (short_put ∷ long_put ∷ []) (some book) ≡ some m → pos 0 ≤ℤ m
unfolding midpoint_credit credit_of quote_for ◌+ℤ◌ ◌-ℤ◌ ◌*ℤ◌
book_midpoint m h = ground arith

build_ladder_total_example : Returns (
    build_ladder PriceEffect.credit
      (short_put ∷ long_put ∷ [])
      "XYZ"
      (some book)
      envelope
      (pos 10)
      (some standard_increments)
      ladder_fractions)
build_ladder_total_example =
    build_ladder_total (short_put ∷ long_put ∷ []) "XYZ" (some book) envelope (pos 10)
      (some standard_increments) ladder_fractions standard_increments standard_made (omega arith)
      (omega arith) book_midpoint
      (
        (omega arith, omega arith),
        (
          (omega arith, omega arith),
          ((omega arith, omega arith), ((omega arith, omega arith), tt)),
        ),
      )
