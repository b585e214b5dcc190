-- ===== src/Pricing/Regimes.antt =====
-- engine/src/engine/options/pricing.py: the two tiers of a `TickRegime` as one grid, and rounding on it.
use native.Mathlib.Nat.{
  div-mul-le_self, le-div_iff_mul-le, div-lt_iff_lt-mul, lt-div-mul-add, mod-add-div',
  mul-le-mul_right,
}
use ibkr_strategy_engine.Prelude.{
  ℕ, suc, ◌+◌, ◌-◌, ◌*◌, ◌/◌, ◌%◌, ◌≤◌, ◌<◌, ◌≡◌, sym, ap, ◌∙◌, inl, inr, ltb, arith, Bool-cases,
  refl, Bool, true, false, if◌then◌else◌, String, str_eq, strip, upper, any, [], ◌∷◌,
}
use ibkr_strategy_engine.Prelude.Result.{ok}
use ibkr_strategy_engine.Pricing.{
  TickRegime, make_regime, increment_for, tick_regime_for, penny_throughout, standard_increments,
}

-- A price that an order may carry: a whole number of the increments that apply at it.
abbrev pub IsOnGrid : TickRegime → ℕ → Type 0
IsOnGrid r price = (k : ℕ) × (price ≡ k * increment_for r price)

-- What construction has checked of a regime: both increments divide the boundary.
pub record IsRegime (r : TickRegime) : Type 0 where
  pub below_pos : 0 < r.below
  pub above_pos : 0 < r.at_or_above
  pub below_rungs : r.boundary ≡ r.boundary / r.below * r.below
  pub above_rungs : r.boundary ≡ r.boundary / r.at_or_above * r.at_or_above

whole : (n m : ℕ) → n % m ≡ 0 → n ≡ n / m * m
whole n m h = omega (arith, mod-add-div' n m)

pub make_regime-IsRegime : (r s : TickRegime) → make_regime r ≡ ok s → (r ≡ s) × IsRegime r
unfolding make_regime
make_regime-IsRegime r s h = (
  ground arith,
  record {
    below_pos = ground arith;
    above_pos = ground arith;
    below_rungs = whole r.boundary r.below (ground arith);
    above_rungs = whole r.boundary r.at_or_above (ground arith);
  },
)

module _ (n m : ℕ) (positive : 0 < m) where
  floor_le : n / m * m ≤ n
  floor_le = div-mul-le_self n m

  floor_greatest : (k : ℕ) → k * m ≤ n → k * m ≤ n / m * m
  floor_greatest k h = mul-le-mul_right m ((le-div_iff_mul-le positive).1 h)

  ceiling_ge : n ≤ (n + (m - 1)) / m * m
  ceiling_ge = omega (arith, lt-div-mul-add {a = n + (m - 1)} positive)

  ceiling_least : (k : ℕ) → n ≤ k * m → (n + (m - 1)) / m * m ≤ k * m
  ceiling_least k h =
      let room : n + (m - 1) < suc k * m = grind arith in
      let lt : (n + (m - 1)) / m < suc k = (div-lt_iff_lt-mul positive).1 room in
      let le : (n + (m - 1)) / m ≤ k = omega (arith, lt) in mul-le-mul_right m le

pub increment_below :
    (r : TickRegime) (price : ℕ) → price < r.boundary → increment_for r price ≡ r.below
increment_below r price h = ground arith

pub increment_above :
    (r : TickRegime) (price : ℕ) → r.boundary ≤ price → increment_for r price ≡ r.at_or_above
increment_above r price h = ground arith

-- The grid below the boundary, and from it on.
on_grid_below :
    (r : TickRegime) (g k : ℕ) → g ≡ k * increment_for r g → g < r.boundary → g ≡ k * r.below
on_grid_below r g k e h = e ∙ ap (λ (m : ℕ). k * m) (increment_below r g h)

on_grid_above :
    (r : TickRegime) (g k : ℕ) → g ≡ k * increment_for r g → r.boundary ≤ g → g ≡ k * r.at_or_above
on_grid_above r g k e h = e ∙ ap (λ (m : ℕ). k * m) (increment_above r g h)

module _ (r : TickRegime) (v : IsRegime r) where
  pub floor_below :
      (p g : ℕ)
      → p < r.boundary
      → IsOnGrid r g
      → g ≤ p
      → IsOnGrid r (p / r.below * r.below)
        × (p / r.below * r.below ≤ p)
        × (g ≤ p / r.below * r.below)
  floor_below p g h (k, e) le =
      let under = floor_le p r.below v.below_pos in
      let same = on_grid_below r g k e (omega arith) in
      (
        (
          p / r.below,
          sym (ap (λ (m : ℕ). p / r.below * m) (increment_below r _ (omega (arith, under)))),
        ),
        under,
        omega (arith, same, floor_greatest p r.below v.below_pos k (omega (arith, same))),
      )

  pub floor_above :
      (p g : ℕ)
      → r.boundary ≤ p
      → IsOnGrid r g
      → g ≤ p
      → let q = p / r.at_or_above * r.at_or_above in IsOnGrid r q × (q ≤ p) × (g ≤ q)
  floor_above p g h (k, e) le =
      let m = r.at_or_above in
      let under = floor_le p m v.above_pos in
      let end = floor_greatest p m v.above_pos (r.boundary / m) (omega (arith, v.above_rungs)) in
      let over : r.boundary ≤ p / m * m = omega (arith, v.above_rungs, end) in
      (
        (p / m, sym (ap (λ (x : ℕ). p / m * x) (increment_above r _ over))),
        under,
        elim (Bool-cases (ltb g r.boundary)) [
          | inl low ↦ ground (arith, over)
          | inr high ↦
              let same = on_grid_above r g k e (ground arith) in
              omega (arith, same, floor_greatest p m v.above_pos k (omega (arith, same)))
        ],
      )

  pub ceiling_below :
      (p g : ℕ)
      → p < r.boundary
      → IsOnGrid r g
      → p ≤ g
      → let q = (p + (r.below - 1)) / r.below * r.below in IsOnGrid r q × (p ≤ q) × (q ≤ g)
  ceiling_below p g h (k, e) le =
      let m = r.below in
      let q = (p + (m - 1)) / m * m in
      let over = ceiling_ge p m v.below_pos in
      let end : q ≤ r.boundary = omega (
        arith,
        v.below_rungs,
        ceiling_least p m v.below_pos (r.boundary / m) (omega (arith, v.below_rungs)),
      ) in
      (
        elim (Bool-cases (ltb q r.boundary)) [
          | inl low ↦ (
            (p + (m - 1)) / m,
            sym (ap (λ (x : ℕ). (p + (m - 1)) / m * x) (increment_below r q (ground arith))),
          )
          | inr high ↦
              let at : q ≡ r.boundary = ground (arith, end) in
              (
                r.boundary / r.at_or_above,
                at
                    ∙ v.above_rungs
                    ∙ sym (
                        ap (λ (x : ℕ). r.boundary / r.at_or_above * x)
                          (increment_above r q (omega arith))),
              )
        ],
        over,
        elim (Bool-cases (ltb g r.boundary)) [
          | inl low ↦
              let same = on_grid_below r g k e (ground arith) in
              omega (arith, same, ceiling_least p m v.below_pos k (omega (arith, same)))
          | inr high ↦ ground (arith, end)
        ],
      )

  pub ceiling_above :
      (p g : ℕ)
      → r.boundary ≤ p
      → IsOnGrid r g
      → p ≤ g
      → let q = (p + (r.at_or_above - 1)) / r.at_or_above * r.at_or_above in
        IsOnGrid r q × (p ≤ q) × (q ≤ g)
  ceiling_above p g h (k, e) le =
      let m = r.at_or_above in
      let over = ceiling_ge p m v.above_pos in
      let same = on_grid_above r g k e (omega arith) in
      (
        (
          (p + (m - 1)) / m,
          sym (ap (λ (x : ℕ). (p + (m - 1)) / m * x) (increment_above r _ (omega (arith, over)))),
        ),
        over,
        omega (arith, same, ceiling_least p m v.above_pos k (omega (arith, same))),
      )

-- The schedule of every symbol is one that construction accepts.
pub tick_regime_made :
    (underlying : String)
    → make_regime (tick_regime_for underlying) ≡ ok (tick_regime_for underlying)
unfolding tick_regime_for make_regime strip
tick_regime_made underlying =
    by_test (any (str_eq (upper (strip underlying))) ("SPY" ∷ "QQQ" ∷ "IWM" ∷ []))
  where
    by_test :
        (b : Bool)
        → make_regime (if b then penny_throughout else standard_increments)
          ≡ ok (if b then penny_throughout else standard_increments)
    by_test true = refl
    by_test false = refl
