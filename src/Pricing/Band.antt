-- ===== src/Pricing/Band.antt =====
-- engine/src/engine/options/pricing.py: what every ladder that `build_ladder` returns has, and when it
-- returns.
use ibkr_strategy_engine.Prelude.{
  ℕ, ◌-◌, ◌≤◌, ltb, ℤ, pos, ◌≤ℤ◌, max_ℤ, ◌≡◌, refl, subst, inl, inr, String, Bool, true, false, not,
  Option, none, some, List, [], ◌∷◌, All, arith, Bool-cases, if◌then◌else◌, ltb_ℤ,
}
use ibkr_strategy_engine.Prelude.Result.{ok, refuse_if, >>=-eq-ok, >>-eq-ok, ok-injective}
use ibkr_strategy_engine.Domain.Legs.{PriceEffect, OptionLegIntent}
use ibkr_strategy_engine.Domain.Checks.{is_credit}
use ibkr_strategy_engine.Pricing.{
  PricingError, TickRegime, make_regime, Rounding, quantize_credit, OptionQuote, natural_credit,
  midpoint_credit,
}
use ibkr_strategy_engine.Pricing.Regimes.{IsOnGrid, IsRegime, make_regime-IsRegime}
use ibkr_strategy_engine.Pricing.Ladder.{
  PriceEnvelope, Fraction, PriceLadder, Band, ends, find_ends, find_band, send_rungs, climb,
  between, regime_or, build_ladder, requested_rungs, add_rungs, min_ℤ, is_null,
}
use ibkr_strategy_engine.Pricing.Rungs.{
  quantized_floor, quantized_ceiling, requested_rungs-All, add_rungs-All, IsDecreasing,
  add_rungs-IsDecreasing,
}

-- The band that was found, and where the two ends lie in it.
pub record IsBand (r : TickRegime) (envelope : PriceEnvelope) (minimum_credit midpoint : ℤ)
    (b : Band) : Type 0 where
  pub above_minimum : envelope.minimum ≤ℤ pos b.floor
  pub above_credit : minimum_credit ≤ℤ pos b.floor
  pub below_maximum : pos b.ceiling ≤ℤ envelope.maximum
  pub below_midpoint : pos b.start ≤ℤ midpoint
  pub target_on : IsOnGrid r b.target
  pub from_floor : b.floor ≤ b.target
  pub to_start : b.target ≤ b.start
  pub to_ceiling : b.start ≤ b.ceiling

-- A ladder that a walk can go down.
pub record IsLadder (r : TickRegime) (envelope : PriceEnvelope) (minimum_credit midpoint : ℤ)
    (l : PriceLadder) : Type 0 where
  pub some_rung : is_null l.rungs ≡ false
  pub decreasing : IsDecreasing none l.rungs
  pub on_grid : All (IsOnGrid r) l.rungs
  pub above_minimum : All (λ (x : ℕ). envelope.minimum ≤ℤ pos x) l.rungs
  pub above_credit : All (λ (x : ℕ). minimum_credit ≤ℤ pos x) l.rungs
  pub below_maximum : All (λ (x : ℕ). pos x ≤ℤ envelope.maximum) l.rungs
  pub below_midpoint : All (λ (x : ℕ). pos x ≤ℤ midpoint) l.rungs

pub All-map : {P Q : ℕ → Type 0} (f : (x : ℕ) → P x → Q x) (xs : List ℕ) → All P xs → All Q xs
All-map f [] h = tt
All-map f (x ∷ xs) h = (f x h.0, All-map f xs h.1)

-- The ends of a walk that has a place in the band.
ends_lem :
    (raw b : Band)
    → ends raw ≡ some b
    → (record raw { target = if ltb raw.start raw.target then raw.start else raw.target } ≡ b)
      × (raw.floor ≤ raw.start)
      × (raw.start ≤ raw.ceiling)
ends_lem raw b h = (ground arith, ground arith, ground arith)

send_rungs_lem :
    (k l : PriceLadder) → send_rungs k ≡ ok (some l) → (k ≡ l) × (is_null k.rungs ≡ false)
unfolding send_rungs
send_rungs_lem k l h = (ground arith, ground arith)

module _ (r : TickRegime) (v : IsRegime r) (envelope : PriceEnvelope) (minimum_credit : ℤ) where
  find_ends-IsBand :
      (midpoint natural : ℤ) (low high : ℕ) (b : Band)
      → envelope.minimum ≤ℤ pos low
      → minimum_credit ≤ℤ pos low
      → pos high ≤ℤ envelope.maximum
      → low ≤ high
      → find_ends r low high midpoint natural ≡ ok (some b)
      → IsBand r envelope minimum_credit midpoint b
  unfolding find_ends
  find_ends-IsBand midpoint natural low high b m c e fits h =
      let (start, s, h') =
        >>=-eq-ok (quantize_credit r Rounding.floor (min_ℤ midpoint (pos high))) _ h in
      let (target, t, h'') =
        >>=-eq-ok (quantize_credit r Rounding.ceiling (max_ℤ natural (pos low))) _ h' in
      let (start_on, under) = quantized_floor r v _ start s in
      let (target_on, over) = quantized_ceiling r v _ target t in
      let raw : Band = record { floor = low; ceiling = high; start = start; target = target } in
      let (same, from, to) = ends_lem raw b (ok-injective h'') in
      subst (IsBand r envelope minimum_credit midpoint) same (record {
        above_minimum = m;
        above_credit = c;
        below_maximum = e;
        below_midpoint = ground (arith, under);
        target_on = lower_on start target start_on target_on;
        from_floor = ground (arith, over);
        to_start = ground arith;
        to_ceiling = to;
      })
    where
      lower_on : (s t : ℕ) → IsOnGrid r s → IsOnGrid r t → IsOnGrid r (if ltb s t then s else t)
      lower_on s t a b = by_test (ltb s t)
        where
          by_test : (x : Bool) → IsOnGrid r (if x then s else t)
          by_test true = a
          by_test false = b

  pub find_band-IsBand :
      (midpoint natural : ℤ) (b : Band)
      → find_band r envelope minimum_credit midpoint natural ≡ ok (some b)
      → IsBand r envelope minimum_credit midpoint b
  unfolding find_band
  find_band-IsBand midpoint natural b h =
      let (high, c, h') = >>=-eq-ok (quantize_credit r Rounding.floor envelope.maximum) _ h in
      let (low, f, h'') =
        >>=-eq-ok (quantize_credit r Rounding.ceiling (max_ℤ envelope.minimum minimum_credit)) _
          h' in
      let (_, under) = quantized_floor r v _ high c in
      let (_, over) = quantized_ceiling r v _ low f in room high low under over h''
    where
      room :
          (high low : ℕ)
          → pos high ≤ℤ envelope.maximum
          → max_ℤ envelope.minimum minimum_credit ≤ℤ pos low
          → (if ltb high low then ok none else find_ends r low high midpoint natural) ≡ ok (some b)
          → IsBand r envelope minimum_credit midpoint b
      room high low under over h = elim (Bool-cases (ltb high low)) [
        | inl none_left ↦ absurd (cc (rw none_left at h))
        | inr fits ↦
            find_ends-IsBand midpoint natural low high b (ground (arith, over))
              (ground (arith, over)) under (ground arith) (rw fits at h)
      ]

  IsLadder-of_band :
      (midpoint : ℤ) (fractions : List Fraction) (b : Band) (l : PriceLadder)
      → IsBand r envelope minimum_credit midpoint b
      → climb r fractions (some b) ≡ ok (some l)
      → IsLadder r envelope minimum_credit midpoint l
  unfolding climb send_rungs
  IsLadder-of_band midpoint fractions b l g h =
      let (requested, q, h') =
        >>=-eq-ok (requested_rungs r b.start (b.start - b.target) fractions) _ h in
      let wanted = requested_rungs-All r v b.start (b.start - b.target) fractions requested q in
      let offers =
        add_rungs-All r v b.target b.start b.ceiling g.target_on g.to_start g.to_ceiling none
          requested wanted in
      let k : PriceLadder = record {
        start = b.start;
        target = b.target;
        floor = b.floor;
        ceiling = b.ceiling;
        regime = r;
        requested = requested;
        rungs = add_rungs b.target b.ceiling none requested;
      } in
      let (same, some_rung) = send_rungs_lem k l h' in
      subst (IsLadder r envelope minimum_credit midpoint) same (record {
        some_rung = some_rung;
        decreasing = add_rungs-IsDecreasing b.target b.ceiling none requested;
        on_grid = All-map (λ x o. o.0) k.rungs offers;
        above_minimum =
            All-map (λ x o. omega (arith, g.above_minimum, g.from_floor, o.1)) k.rungs offers;
        above_credit =
            All-map (λ x o. omega (arith, g.above_credit, g.from_floor, o.1)) k.rungs offers;
        below_maximum =
            All-map (λ x o. omega (arith, g.below_maximum, g.to_ceiling, o.2)) k.rungs offers;
        below_midpoint = All-map (λ x o. omega (arith, g.below_midpoint, o.2)) k.rungs offers;
      })

between-IsLadder :
    (r : TickRegime) (v : IsRegime r) (envelope : PriceEnvelope) (minimum_credit : ℤ)
    (fractions : List Fraction) (midpoint natural : Option ℤ) (l : PriceLadder)
    → between r envelope minimum_credit fractions midpoint natural ≡ ok (some l)
    → (m : ℤ) × (midpoint ≡ some m) × IsLadder r envelope minimum_credit m l
unfolding between climb
between-IsLadder r v envelope minimum_credit fractions none natural l h = cc
between-IsLadder r v envelope minimum_credit fractions (some m) none l h = cc
between-IsLadder r v envelope minimum_credit fractions (some m) (some n) l h =
    elim (Bool-cases (ltb_ℤ m n)) [
      | inl crossed ↦ absurd (cc (rw crossed at h))
      | inr open_book ↦
          let (band, found, climbed) =
            >>=-eq-ok (find_band r envelope minimum_credit m n) _ (rw open_book at h) in
          (m, refl, by_band band found climbed)
    ]
  where
    by_band :
        (band : Option Band)
        → find_band r envelope minimum_credit m n ≡ ok band
        → climb r fractions band ≡ ok (some l)
        → IsLadder r envelope minimum_credit m l
    by_band none found climbed = absurd (cc climbed)
    by_band (some b) found climbed =
        IsLadder-of_band r v envelope minimum_credit m fractions b l
          (find_band-IsBand r v envelope minimum_credit m n b found) climbed

-- On a regime that construction accepted, a ladder that is built for a book with a midpoint has a rung,
-- its rungs are prices of the grid, each is below the one before it, and all lie between the larger of
-- the envelope's minimum and the minimum credit, and the smaller of the envelope's maximum and the
-- midpoint.
pub build_ladder-IsLadder :
    (effect : PriceEffect) (legs : List OptionLegIntent) (underlying : String)
    (snapshot : Option (List OptionQuote)) (envelope : PriceEnvelope) (minimum_credit : ℤ)
    (regime : Option TickRegime) (fractions : List Fraction) (l : PriceLadder) (s : TickRegime)
    → make_regime (regime_or regime underlying) ≡ ok s
    → build_ladder effect legs underlying snapshot envelope minimum_credit regime fractions
      ≡ ok (some l)
    → (midpoint : ℤ) × (midpoint_credit legs snapshot ≡ some midpoint)
      × IsLadder (regime_or regime underlying) envelope minimum_credit midpoint l
unfolding build_ladder
build_ladder-IsLadder effect legs underlying snapshot envelope minimum_credit regime fractions l s
      made h =
    let r = regime_or regime underlying in
    between-IsLadder r (make_regime-IsRegime r s made).1 envelope minimum_credit fractions
      (midpoint_credit legs snapshot) (natural_credit legs snapshot) l
      (>>-eq-ok (refuse_if (not (is_credit effect)) PricingError.not_a_credit) _ h).1
