-- ===== src/Domain/Risk.antt =====
-- engine/src/engine/options/domain.py and engine/src/engine/options/risk.py: the recorded maximum loss
-- bounds what the position can lose at expiry.
use native.Mathlib.Nat.{mul-le-mul_right}
use ibkr_strategy_engine.Prelude.{
  ℕ, ◌+◌, ◌≤◌, ℤ, pos, pos_part, neg_part, ◌≤ℤ◌, ◌<ℤ◌, ◌+ℤ◌, ◌-ℤ◌, ◌*ℤ◌, leb_ℤ, max_ℤ, ◌≡◌, refl,
  ◌∙◌, subst, subst₂, ap₂, Bool, true, false, ◌&&◌, Option, none, some, List, all, arith,
  eq_of_parts, +ℤ_parts, -ℤ_parts, *ℤ_parts,
}
use ibkr_strategy_engine.Prelude.Result.{ok, refuse_if, >>-eq-ok, >>=-eq-ok, ok-injective}
use ibkr_strategy_engine.Domain.Legs.{
  OptionRight, OrderAction, StrategyAction, StrategyType, Refusal, OptionLegIntent,
  OptionStrategyIntent, sole, is_put, is_call, first_multiplier,
}
use ibkr_strategy_engine.Domain.Loss.{
  width_of, widest_wing, compute_maximum_loss_per_contract, add_legs, terminal_profit_per_share,
}
use ibkr_strategy_engine.Domain.Checks.{
  check_legs_are_coherent, check_shape, check_vertical, check_strike_ordering, check_maximum_loss,
  check_opening, check_every_short_is_covered, make_intent-Accepted, at_or_above, is_condor,
  make_intent,
}
use ibkr_strategy_engine.Domain.Payoff.{is_unit_ratio}
use ibkr_strategy_engine.Domain.Wings.{
  LosesAtMost, put_spread_bound, call_spread_bound, condor_bound,
}

width_of_lem :
    (e : Refusal) (a b : Option OptionLegIntent) (w : ℤ)
    → width_of e a b ≡ ok w
    → (high low : OptionLegIntent) × (a ≡ some high)
      × (b ≡ some low)
      × (high.strike -ℤ low.strike ≡ w)
width_of_lem e none b w h = ground arith
width_of_lem e (some a) none w h = ground arith
width_of_lem e (some a) (some b) w h = (a, b, refl, refl, ground arith)

-- What the strike ordering check establishes.
ordering_lem :
    (k : StrategyType) (legs : List OptionLegIntent)
    → check_strike_ordering k legs ≡ ok tt
    → let sp = sole legs OptionRight.put OrderAction.sell in
      let lp = sole legs OptionRight.put OrderAction.buy in
      let sc = sole legs OptionRight.call OrderAction.sell in
      let lc = sole legs OptionRight.call OrderAction.buy in
      (at_or_above lp sp ≡ false)
      × (at_or_above sc lc ≡ false)
      × ((is_condor k && at_or_above sp sc) ≡ false)
unfolding check_strike_ordering
ordering_lem k legs h = ground arith

above_lem :
    (a b : Option OptionLegIntent) (x y : OptionLegIntent)
    → a ≡ some x
    → b ≡ some y
    → at_or_above a b ≡ false
    → x.strike <ℤ y.strike
above_lem a b x y p q h =
    let h' : at_or_above (some x) (some y) ≡ false =
      subst₂ (λ (u v : Option OptionLegIntent). at_or_above u v ≡ false) p q h in
    ground arith

vertical_lem :
    (required : OptionRight → Bool) (legs : List OptionLegIntent)
    → check_vertical required legs ≡ ok tt
    → all (λ leg. required leg.right) legs ≡ true
unfolding check_vertical
vertical_lem required legs h = ground arith

wings_bound :
    (k : StrategyType) (legs : List OptionLegIntent) (w at : ℤ)
    → all is_unit_ratio legs ≡ true
    → check_shape k legs ≡ ok tt
    → check_strike_ordering k legs ≡ ok tt
    → widest_wing k legs ≡ ok w
    → LosesAtMost w at legs
unfolding widest_wing check_shape
wings_bound StrategyType.put_credit_spread legs w at unit shape ordered wide =
    let (short, long, ps, pl, e) = width_of_lem _ _ _ w wide in
    let (reversed, _, _) = ordering_lem _ legs ordered in
    let below : long.strike <ℤ short.strike = above_lem _ _ long short pl ps reversed in
    subst (λ (v : ℤ). LosesAtMost v at legs) e
      (put_spread_bound legs unit at short long ps pl (vertical_lem is_put legs shape)
        (omega arith))
wings_bound StrategyType.call_credit_spread legs w at unit shape ordered wide =
    let (long, short, pl, ps, e) = width_of_lem _ _ _ w wide in
    let (_, reversed, _) = ordering_lem _ legs ordered in
    let above : short.strike <ℤ long.strike = above_lem _ _ short long ps pl reversed in
    subst (λ (v : ℤ). LosesAtMost v at legs) e
      (call_spread_bound legs unit at short long ps pl (vertical_lem is_call legs shape)
        (omega arith))
wings_bound StrategyType.iron_condor legs w at unit shape ordered wide =
    let (pw, e1, r1) = >>=-eq-ok (width_of Refusal.condor_legs_missing _ _) _ wide in
    let (cw, e2, r2) = >>=-eq-ok (width_of Refusal.condor_legs_missing _ _) _ r1 in
    let (sp, lp, psp, plp, p) = width_of_lem _ _ _ pw e1 in
    let (lc, sc, plc, psc, c) = width_of_lem _ _ _ cw e2 in
    let (puts, calls, shorts) = ordering_lem _ legs ordered in
    let below : lp.strike <ℤ sp.strike = above_lem _ _ lp sp plp psp puts in
    let above : sc.strike <ℤ lc.strike = above_lem _ _ sc lc psc plc calls in
    let apart : sp.strike <ℤ sc.strike = above_lem _ _ sp sc psp psc shorts in
    let e : max_ℤ (sp.strike -ℤ lp.strike) (lc.strike -ℤ sc.strike) ≡ w =
      ap₂ max_ℤ p c ∙ ok-injective r2 in
    subst (λ (v : ℤ). LosesAtMost v at legs) e
      (condor_bound legs unit at sp lp sc lc psp plp psc plc (omega arith) (omega arith) apart)

-- The recorded maximum loss of an opening strategy, and the width that it comes from.
maximum_loss_lem :
    (s : OptionStrategyIntent)
    → check_opening s ≡ ok tt
    → (w : ℤ) × (widest_wing s.strategy_type s.legs ≡ ok w)
      × (check_strike_ordering s.strategy_type s.legs ≡ ok tt)
      × ((w -ℤ s.limit_price) *ℤ first_multiplier s.legs ≡ s.maximum_loss_per_contract)
unfolding check_opening check_maximum_loss compute_maximum_loss_per_contract
maximum_loss_lem s h =
    let (ordered, rest) = >>-eq-ok (check_strike_ordering s.strategy_type s.legs) _ h in
    let (_, loss) = >>-eq-ok (check_every_short_is_covered s.legs) _ rest in
    let (c, computed, same) =
      >>=-eq-ok
        (compute_maximum_loss_per_contract s.strategy_type s.legs s.limit_price
          (first_multiplier s.legs))
        _ loss in
    let (_, a) = >>-eq-ok (refuse_if (leb_ℤ s.limit_price (pos 0)) _) _ computed in
    let (w, wide, b) = >>=-eq-ok (widest_wing s.strategy_type s.legs) _ a in
    let (_, d) = >>-eq-ok (refuse_if (leb_ℤ w (pos 0)) _) _ b in
    let (_, f) = >>-eq-ok (refuse_if (leb_ℤ w s.limit_price) _) _ d in
    (w, wide, ordered, ok-injective f ∙ eq_of_parts c s.maximum_loss_per_contract (ground arith))

coherent-unit :
    (s : OptionStrategyIntent) → check_legs_are_coherent s ≡ ok tt → all is_unit_ratio s.legs ≡ true
unfolding check_legs_are_coherent
coherent-unit s h = ground arith

-- A loss of at most `d` a share is a loss of at most `d * m` on `m` shares.
pub scale_bound :
    (p d : ℤ) (m : ℕ)
    → neg_part p + neg_part d ≤ pos_part p + pos_part d
    → pos 0 ≤ℤ p *ℤ m +ℤ d *ℤ m
scale_bound p d m h =
    omega (arith, mul-le-mul_right m h, *ℤ_parts p m, *ℤ_parts d m, +ℤ_parts (p *ℤ m) (d *ℤ m))

-- For every opening strategy that construction accepts and every price of the underlying at expiry,
-- the profit of one contract is at least the negative of the recorded maximum loss.
pub maximum_loss_bounds_payoff :
    (s t : OptionStrategyIntent) (at : ℤ)
    → make_intent s ≡ ok t
    → s.strategy_action ≡ StrategyAction.opening
    → pos 0
      ≤ℤ terminal_profit_per_share t at *ℤ first_multiplier t.legs +ℤ t.maximum_loss_per_contract
unfolding terminal_profit_per_share
maximum_loss_bounds_payoff s t at made opens =
    let (e, good) = make_intent-Accepted s t made in
    let (w, wide, ordered, loss) = maximum_loss_lem s (good.opened (rw opens)) in
    let bound =
      wings_bound s.strategy_type s.legs w at (coherent-unit s good.coherent) good.shape ordered
        wide s.limit_price in
    subst
      (λ (u : OptionStrategyIntent).
        pos 0
        ≤ℤ terminal_profit_per_share u at *ℤ first_multiplier u.legs +ℤ u.maximum_loss_per_contract)
      e
      (rw (← loss) (
        scale_bound (add_legs at s.limit_price s.legs) (w -ℤ s.limit_price)
          (first_multiplier s.legs) (omega (arith, bound, -ℤ_parts w s.limit_price))))
