-- ===== src/Pricing/Rungs.antt =====
-- engine/src/engine/options/pricing.py: the rungs of a ladder are prices of the grid, in the band, and
-- decrease.
use ibkr_strategy_engine.Prelude.{
  ℕ, ◌+◌, ◌-◌, ◌*◌, ◌/◌, ◌≤◌, ◌<◌, ltb, ℤ, pos, negsuc, ◌≤ℤ◌, -ℤ_parts, ◌≡◌, refl, sym, ap, subst,
  inl, inr, Bool, true, false, Option, none, some, List, [], ◌∷◌, All, arith, Bool-cases,
}
use ibkr_strategy_engine.Prelude.Result.{ok, >>=-eq-ok, ok-injective}
use ibkr_strategy_engine.Pricing.{TickRegime, increment_for, Rounding, quantize_credit}
use ibkr_strategy_engine.Pricing.Regimes.{IsOnGrid, IsRegime}
use ibkr_strategy_engine.Pricing.Grid.{floor_law, ceiling_law}
use ibkr_strategy_engine.Pricing.Ladder.{
  Fraction, conceded, requested_rungs, clamp, add_rungs, not_below, check_rungs,
}

zero-IsOnGrid : (r : TickRegime) → IsOnGrid r 0
zero-IsOnGrid r = (0, omega arith)

-- There is a price of the grid above every price.
above : (r : TickRegime) → IsRegime r → (p : ℕ) → (g : ℕ) × IsOnGrid r g × (p ≤ g)
above r v p = (
  (r.boundary + p) * r.at_or_above,
  (r.boundary + p, ap (λ (m : ℕ). (r.boundary + p) * m) (sym (upper (grind (arith, v.above_pos))))),
  grind (arith, v.above_pos),
)
  where
    upper :
        r.boundary ≤ (r.boundary + p) * r.at_or_above
        → increment_for r ((r.boundary + p) * r.at_or_above) ≡ r.at_or_above
    upper h = ground arith

module _ (r : TickRegime) (v : IsRegime r) where
  pub quantized_floor :
      (z : ℤ) (q : ℕ) → quantize_credit r Rounding.floor z ≡ ok q → IsOnGrid r q × (pos q ≤ℤ z)
  unfolding quantize_credit
  quantized_floor (pos p) q h =
      let (grid, le, _) = floor_law r v p q 0 h (zero-IsOnGrid r) (omega arith) in
      (grid, omega arith)
  quantized_floor (negsuc p) q h = cc

  pub quantized_ceiling :
      (z : ℤ) (q : ℕ) → quantize_credit r Rounding.ceiling z ≡ ok q → IsOnGrid r q × (z ≤ℤ pos q)
  unfolding quantize_credit
  quantized_ceiling (pos p) q h =
      let (g, on, over) = above r v p in
      let (grid, le, _) = ceiling_law r v p q g h on over in (grid, omega arith)
  quantized_ceiling (negsuc p) q h = cc

  -- A price of the grid, at most `start`.
  abbrev pub IsRequested : ℕ → ℕ → Type 0
  IsRequested start x = IsOnGrid r x × (x ≤ start)

  pub requested_rungs-All :
      (start span : ℕ) (fractions : List Fraction) (xs : List ℕ)
      → requested_rungs r start span fractions ≡ ok xs
      → All (IsRequested start) xs
  unfolding requested_rungs
  requested_rungs-All start span [] xs h = subst (All (IsRequested start)) (ok-injective h) tt
  requested_rungs-All start span (f ∷ fractions) xs h =
      let (x, first, h') =
        >>=-eq-ok (quantize_credit r Rounding.floor (conceded start span f)) _ h in
      let (rest, others, h'') = >>=-eq-ok (requested_rungs r start span fractions) _ h' in
      let (grid, le) = quantized_floor (conceded start span f) x first in
      let within : x ≤ start = omega (
        arith,
        le,
        -ℤ_parts (pos start) (pos ((span * f.numerator + (f.denominator - 1)) / f.denominator)),
      ) in
      subst (All (IsRequested start)) (ok-injective h'')
        ((grid, within), requested_rungs-All start span fractions rest others)

  module _ (target start high : ℕ) (low : IsOnGrid r target) (fits : target ≤ start)
      (under : start ≤ high) where
    -- What the walk may offer: a price of the grid, between its two ends.
    abbrev pub IsOffer : ℕ → Type 0
    IsOffer x = IsOnGrid r x × (target ≤ x) × (x ≤ start)

    clamp-IsOffer : (x : ℕ) → IsRequested start x → IsOffer (clamp target high x)
    clamp-IsOffer x (grid, le) = elim (Bool-cases (ltb x target)) [
      | inl raised ↦
          let e : clamp target high x ≡ target = ground arith in
          subst IsOffer (sym e) (low, omega arith, fits)
      | inr kept ↦
          let e : clamp target high x ≡ x = ground arith in
          subst IsOffer (sym e) (grid, ground arith, le)
    ]

    pub add_rungs-All :
        (last : Option ℕ) (xs : List ℕ)
        → All (IsRequested start) xs
        → All IsOffer (add_rungs target high last xs)
    unfolding add_rungs
    add_rungs-All last [] good = tt
    add_rungs-All last (x ∷ xs) good =
        by_test (not_below last (clamp target high x)) (add_rungs-All last xs good.1)
          (add_rungs-All (some (clamp target high x)) xs good.1)
      where
        by_test :
            (b : Bool)
            → All IsOffer (add_rungs target high last xs)
            → All IsOffer (add_rungs target high (some (clamp target high x)) xs)
            → All IsOffer (elim b [
              | true ↦ add_rungs target high last xs
              | false ↦ clamp target high x ∷ add_rungs target high (some (clamp target high x)) xs
            ])
        by_test true skipped taken = skipped
        by_test false skipped taken = (clamp-IsOffer x good.0, taken)

-- Each below the one before.
abbrev pub IsDecreasing : Option ℕ → List ℕ → Type 0
IsDecreasing last [] = Unit
IsDecreasing none (x ∷ xs) = IsDecreasing (some x) xs
IsDecreasing (some p) (x ∷ xs) = (x < p) × IsDecreasing (some x) xs

add_rungs_step :
    (last : Option ℕ) (x : ℕ) (xs : List ℕ)
    → not_below last x ≡ false
    → IsDecreasing (some x) xs
    → IsDecreasing last (x ∷ xs)
add_rungs_step none x xs e h = h
add_rungs_step (some p) x xs e h = (ground arith, h)

pub add_rungs-IsDecreasing :
    (target high : ℕ) (last : Option ℕ) (xs : List ℕ)
    → IsDecreasing last (add_rungs target high last xs)
unfolding add_rungs
add_rungs-IsDecreasing target high last [] = empty last
  where
    empty : (last : Option ℕ) → IsDecreasing last []
    empty none = tt
    empty (some p) = tt
add_rungs-IsDecreasing target high last (x ∷ xs) =
    by_test (not_below last (clamp target high x)) refl (add_rungs-IsDecreasing target high last xs)
      (add_rungs-IsDecreasing target high (some (clamp target high x)) xs)
  where
    by_test :
        (b : Bool)
        → not_below last (clamp target high x) ≡ b
        → IsDecreasing last (add_rungs target high last xs)
        → IsDecreasing
            (some (clamp target high x))
            (add_rungs target high (some (clamp target high x)) xs)
        → IsDecreasing last (elim b [
          | true ↦ add_rungs target high last xs
          | false ↦ clamp target high x ∷ add_rungs target high (some (clamp target high x)) xs
        ])
    by_test true e skipped taken = skipped
    by_test false e skipped taken = add_rungs_step last (clamp target high x) _ e taken

-- Rungs that decrease in a band pass the check of a ladder.
pub check_rungs_total :
    (low high : ℕ) (last : Option ℕ) (xs : List ℕ)
    → IsDecreasing last xs
    → All (λ (x : ℕ). (low ≤ x) × (x ≤ high)) xs
    → check_rungs low high last xs ≡ ok tt
unfolding check_rungs
check_rungs_total low high last [] d g = refl
check_rungs_total low high none (x ∷ xs) d g =
    ground (arith, check_rungs_total low high (some x) xs d g.1)
check_rungs_total low high (some p) (x ∷ xs) d g =
    ground (arith, check_rungs_total low high (some x) xs d.1 g.1)
