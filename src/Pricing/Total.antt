-- ===== src/Pricing/Total.antt =====
-- engine/src/engine/options/pricing.py: `build_ladder` never raises on a priced book, a sound envelope and
-- fractions of at most one.
use native.Mathlib.Nat.{div-lt_iff_lt-mul, mul-le-mul_left}
use ibkr_strategy_engine.Prelude.{
  ℕ, suc, ◌+◌, ◌-◌, ◌*◌, ◌/◌, ◌≤◌, ◌<◌, ltb, ltb_ℤ, ℤ, pos, negsuc, ◌≤ℤ◌, ◌-ℤ◌, -ℤ_parts, max_ℤ,
  ◌≡◌, refl, ap, ◌∙◌, String, Bool, true, false, Option, none, some, List, [], ◌∷◌, All, arith,
  if◌then◌else◌,
}
use ibkr_strategy_engine.Prelude.Result.{Result, ok, ◌>>=◌}
use ibkr_strategy_engine.Domain.Legs.{PriceEffect, OptionLegIntent}
use ibkr_strategy_engine.Pricing.{
  PricingError, TickRegime, make_regime, Rounding, quantize_credit, OptionQuote, natural_credit,
  midpoint_credit,
}
use ibkr_strategy_engine.Pricing.Regimes.{IsRegime, make_regime-IsRegime}
use ibkr_strategy_engine.Pricing.Grid.{quantize_total}
use ibkr_strategy_engine.Pricing.Ladder.{
  PriceEnvelope, Fraction, PriceLadder, Band, conceded, ends, find_ends, find_band, send_rungs,
  climb, between, regime_or, build_ladder, requested_rungs, check_rungs, make_ladder, min_ℤ,
  is_null,
}
use ibkr_strategy_engine.Pricing.Rungs.{
  requested_rungs-All, add_rungs-All, add_rungs-IsDecreasing, check_rungs_total,
}
use ibkr_strategy_engine.Pricing.Band.{IsBand, find_band-IsBand, All-map}

-- A call that returns.
abbrev pub Returns : {A : Type 0} → Result PricingError A → Type 0
Returns {A} m = (a : A) × (m ≡ ok a)

Returns-bind :
    {A B : Type 0} (m : Result PricingError A) (f : A → Result PricingError B)
    → Returns m
    → ((a : A) → m ≡ ok a → Returns (f a))
    → Returns (m >>= f)
Returns-bind m f (a, e) k = let (b, e') = k a e in (b, rw e e')

-- A fraction of at most the whole way.
abbrev pub IsPart : Fraction → Type 0
IsPart f = (0 < f.denominator) × (f.numerator ≤ f.denominator)

fraction_le :
    (span : ℕ) (f : Fraction)
    → IsPart f
    → (span * f.numerator + (f.denominator - 1)) / f.denominator ≤ span
fraction_le span f (positive, part) =
    let room : span * f.numerator + (f.denominator - 1) < suc span * f.denominator =
      grind (arith, mul-le-mul_left span part) in
    let lt = (div-lt_iff_lt-mul positive).1 room in omega (arith, lt)

conceded_nonneg :
    (start span : ℕ) (f : Fraction) → IsPart f → span ≤ start → pos 0 ≤ℤ conceded start span f
conceded_nonneg start span f part le =
    let d = (span * f.numerator + (f.denominator - 1)) / f.denominator in
    omega (
      arith,
      fraction_le span f part,
      -ℤ_parts (pos start) (pos d),
      sub_pos start d (omega (arith, fraction_le span f part)),
    )
  where
    sub_pos : (a b : ℕ) → b ≤ a → pos 0 ≤ℤ pos a -ℤ pos b
    sub_pos a b h = omega (arith, -ℤ_parts (pos a) (pos b))

module _ (r : TickRegime) (v : IsRegime r) where
  quantized : (rounding : Rounding) (z : ℤ) → pos 0 ≤ℤ z → Returns (quantize_credit r rounding z)
  unfolding quantize_credit
  quantized rounding (pos p) h = quantize_total r rounding p v
  quantized rounding (negsuc p) h = absurd (omega arith)

  requested-Returns :
      (start span : ℕ) (fractions : List Fraction)
      → span ≤ start
      → All IsPart fractions
      → Returns (requested_rungs r start span fractions)
  unfolding requested_rungs
  requested-Returns start span [] le parts = ([], refl)
  requested-Returns start span (f ∷ fractions) le parts =
      let rest = requested-Returns start span fractions le parts.1 in
      Returns-bind (quantize_credit r Rounding.floor (conceded start span f)) _
        (quantized Rounding.floor (conceded start span f) (conceded_nonneg start span f parts.0 le))
        (λ x e.
          Returns-bind (requested_rungs r start span fractions) _ rest (λ xs e'. (x ∷ xs, refl)))

  send_rungs-Returns :
      (l : PriceLadder)
      → check_rungs l.floor l.ceiling none l.rungs ≡ ok tt
      → Returns (send_rungs l)
  unfolding send_rungs
  send_rungs-Returns l h = by_test (is_null l.rungs)
    where
      by_test : (b : Bool) → Returns (if b then ok none else (make_ladder l >>= λ x. ok (some x)))
      by_test true = (none, refl)
      by_test false = (some l, rw h)

  climb-Returns :
      (envelope : PriceEnvelope) (minimum_credit midpoint : ℤ) (fractions : List Fraction)
      (b : Option Band)
      → ((c : Band) → b ≡ some c → IsBand r envelope minimum_credit midpoint c)
      → All IsPart fractions
      → Returns (climb r fractions b)
  unfolding climb
  climb-Returns envelope minimum_credit midpoint fractions none band parts = (none, refl)
  climb-Returns envelope minimum_credit midpoint fractions (some b) band parts =
      let g = band b refl in
      Returns-bind (requested_rungs r b.start (b.start - b.target) fractions) _
        (requested-Returns b.start (b.start - b.target) fractions (omega arith) parts)
        (λ requested e.
          let wanted = requested_rungs-All r v b.start (b.start - b.target) fractions requested e in
          let offers =
            add_rungs-All r v b.target b.start b.ceiling g.target_on g.to_start g.to_ceiling none
              requested wanted in
          send_rungs-Returns _ (
            check_rungs_total b.floor b.ceiling none _
              (add_rungs-IsDecreasing b.target b.ceiling none requested)
              (All-map (λ x o. (omega (arith, g.from_floor, o.1), omega (arith, g.to_ceiling, o.2)))
                _ offers)))

  find_ends-Returns :
      (midpoint natural : ℤ) (low high : ℕ)
      → pos 0 ≤ℤ midpoint
      → Returns (find_ends r low high midpoint natural)
  unfolding find_ends
  find_ends-Returns midpoint natural low high h =
      Returns-bind (quantize_credit r Rounding.floor (min_ℤ midpoint (pos high))) _
        (quantized Rounding.floor _ (ground arith))
        (λ start e.
          Returns-bind (quantize_credit r Rounding.ceiling (max_ℤ natural (pos low))) _
            (quantized Rounding.ceiling _ (ground arith))
            (λ target e'. (
              ends (record { floor = low; ceiling = high; start = start; target = target }),
              refl,
            )))

  find_band-Returns :
      (envelope : PriceEnvelope) (minimum_credit midpoint natural : ℤ)
      → pos 0 ≤ℤ envelope.maximum
      → pos 0 ≤ℤ minimum_credit
      → pos 0 ≤ℤ midpoint
      → Returns (find_band r envelope minimum_credit midpoint natural)
  unfolding find_band
  find_band-Returns envelope minimum_credit midpoint natural high low h =
      Returns-bind (quantize_credit r Rounding.floor envelope.maximum) _
        (quantized Rounding.floor _ high)
        (λ c e.
          Returns-bind (quantize_credit r Rounding.ceiling (max_ℤ envelope.minimum minimum_credit))
            _ (quantized Rounding.ceiling _ (ground arith)) (λ f e'. room c f))
    where
      room : (c f : ℕ) → Returns (if ltb c f then ok none else find_ends r f c midpoint natural)
      room c f = by_test (ltb c f)
        where
          by_test : (b : Bool) → Returns (if b then ok none else find_ends r f c midpoint natural)
          by_test true = (none, refl)
          by_test false = find_ends-Returns midpoint natural f c h

  between-Returns :
      (envelope : PriceEnvelope) (minimum_credit : ℤ) (fractions : List Fraction)
      (midpoint natural : Option ℤ)
      → pos 0 ≤ℤ envelope.maximum
      → pos 0 ≤ℤ minimum_credit
      → ((m : ℤ) → midpoint ≡ some m → pos 0 ≤ℤ m)
      → All IsPart fractions
      → Returns (between r envelope minimum_credit fractions midpoint natural)
  unfolding between
  between-Returns envelope minimum_credit fractions none natural high low mid parts = (none, refl)
  between-Returns envelope minimum_credit fractions (some m) none high low mid parts = (none, refl)
  between-Returns envelope minimum_credit fractions (some m) (some n) high low mid parts =
      by_test (ltb_ℤ m n)
    where
      by_test :
          (b : Bool)
          → Returns (
              if b
              then ok none
              else (find_band r envelope minimum_credit m n >>= λ band. climb r fractions band))
      by_test true = (none, refl)
      by_test false =
          Returns-bind (find_band r envelope minimum_credit m n) _
            (find_band-Returns envelope minimum_credit m n high low (mid m refl))
            (λ band found.
              climb-Returns envelope minimum_credit m fractions band
                (λ c e. find_band-IsBand r v envelope minimum_credit m n c (found ∙ ap ok e)) parts)

-- For a credit structure, on a regime that construction accepted, with a maximum and a minimum credit that
-- are not negative, a midpoint that is not negative where there is one, and fractions of at most the
-- whole way, `build_ladder` returns: no check that it makes on the way, the ladder's own included, raises.
pub build_ladder_total :
    (legs : List OptionLegIntent) (underlying : String) (snapshot : Option (List OptionQuote))
    (envelope : PriceEnvelope) (minimum_credit : ℤ) (regime : Option TickRegime)
    (fractions : List Fraction) (s : TickRegime)
    → make_regime (regime_or regime underlying) ≡ ok s
    → pos 0 ≤ℤ envelope.maximum
    → pos 0 ≤ℤ minimum_credit
    → ((m : ℤ) → midpoint_credit legs snapshot ≡ some m → pos 0 ≤ℤ m)
    → All IsPart fractions
    → Returns (
        build_ladder PriceEffect.credit legs underlying snapshot envelope minimum_credit regime
          fractions)
unfolding build_ladder
build_ladder_total legs underlying snapshot envelope minimum_credit regime fractions s made high low
      mid parts =
    let r = regime_or regime underlying in
    between-Returns r (make_regime-IsRegime r s made).1 envelope minimum_credit fractions
      (midpoint_credit legs snapshot) (natural_credit legs snapshot) high low mid parts
