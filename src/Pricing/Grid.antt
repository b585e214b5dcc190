-- ===== src/Pricing/Grid.antt =====
-- engine/src/engine/options/pricing.py: `quantize_credit` rounds to the nearest price of the whole grid,
-- over both of its tiers.
use ibkr_strategy_engine.Prelude.{
  ℕ, ◌+◌, ◌-◌, ◌*◌, ◌/◌, ◌≤◌, ◌≡◌, sym, ap, ◌∙◌, subst, inl, inr, ltb, arith, Bool-cases,
}
use ibkr_strategy_engine.Prelude.Result.{ok}
use ibkr_strategy_engine.Pricing.{
  TickRegime, make_regime, increment_for, Rounding, rungs_in, quantize,
}
use ibkr_strategy_engine.Pricing.Regimes.{
  IsOnGrid, IsRegime, make_regime-IsRegime, increment_below, increment_above, floor_below,
  floor_above, ceiling_below, ceiling_above,
}

-- What quantizing gives, where it is not refused.
quantize-value :
    (r : TickRegime) (rounding : Rounding) (p q : ℕ)
    → quantize r rounding p ≡ ok q
    → rungs_in rounding p (increment_for r p) * increment_for r p ≡ q
unfolding quantize
quantize-value r rounding p q h = ground arith

-- Quantizing never fails on a regime that construction accepted.
pub quantize_total :
    (r : TickRegime) (rounding : Rounding) (p : ℕ)
    → IsRegime r
    → (q : ℕ) × (quantize r rounding p ≡ ok q)
unfolding quantize
quantize_total r rounding p v = (
  rungs_in rounding p (increment_for r p) * increment_for r p,
  ground (arith, v.below_pos, v.above_pos),
)

pub floor_law :
    (r : TickRegime) (v : IsRegime r) (p q g : ℕ)
    → quantize r Rounding.floor p ≡ ok q
    → IsOnGrid r g
    → g ≤ p
    → IsOnGrid r q × (q ≤ p) × (g ≤ q)
floor_law r v p q g h grid le = elim (Bool-cases (ltb p r.boundary)) [
  | inl low ↦
      subst (λ (x : ℕ). IsOnGrid r x × (x ≤ p) × (g ≤ x))
        (sym (ap (λ (m : ℕ). p / m * m) (increment_below r p (ground arith)))
          ∙ quantize-value r Rounding.floor p q h)
        (floor_below r v p g (ground arith) grid le)
  | inr high ↦
      subst (λ (x : ℕ). IsOnGrid r x × (x ≤ p) × (g ≤ x))
        (sym (ap (λ (m : ℕ). p / m * m) (increment_above r p (ground arith)))
          ∙ quantize-value r Rounding.floor p q h)
        (floor_above r v p g (ground arith) grid le)
]

pub ceiling_law :
    (r : TickRegime) (v : IsRegime r) (p q g : ℕ)
    → quantize r Rounding.ceiling p ≡ ok q
    → IsOnGrid r g
    → p ≤ g
    → IsOnGrid r q × (p ≤ q) × (q ≤ g)
ceiling_law r v p q g h grid le = elim (Bool-cases (ltb p r.boundary)) [
  | inl low ↦
      subst (λ (x : ℕ). IsOnGrid r x × (p ≤ x) × (x ≤ g))
        (sym (ap (λ (m : ℕ). (p + (m - 1)) / m * m) (increment_below r p (ground arith)))
          ∙ quantize-value r Rounding.ceiling p q h)
        (ceiling_below r v p g (ground arith) grid le)
  | inr high ↦
      subst (λ (x : ℕ). IsOnGrid r x × (p ≤ x) × (x ≤ g))
        (sym (ap (λ (m : ℕ). (p + (m - 1)) / m * m) (increment_above r p (ground arith)))
          ∙ quantize-value r Rounding.ceiling p q h)
        (ceiling_above r v p g (ground arith) grid le)
]

-- On a regime that construction accepted, rounding down gives a price of the grid that is at most the
-- price, and at least every price of the grid that is.
pub quantize_floor :
    (r s : TickRegime) (p q g : ℕ)
    → make_regime r ≡ ok s
    → quantize r Rounding.floor p ≡ ok q
    → IsOnGrid r g
    → g ≤ p
    → IsOnGrid r q × (q ≤ p) × (g ≤ q)
quantize_floor r s p q g made = floor_law r (make_regime-IsRegime r s made).1 p q g
