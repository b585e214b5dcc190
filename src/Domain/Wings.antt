-- ===== src/Domain/Wings.antt =====
-- engine/src/engine/options/domain.py and engine/src/engine/options/risk.py: the legs of a spread lose at most
-- the width of its wider wing.
use ibkr_strategy_engine.Prelude.{
  ◌+◌, ◌≤◌, ℤ, pos_part, neg_part, ◌≤ℤ◌, ◌<ℤ◌, ◌-ℤ◌, max_ℤ, ◌≡◌, ◌⊎◌, true, some, List, all, arith,
  -ℤ_parts,
}
use ibkr_strategy_engine.Domain.Legs.{
  OptionRight, OrderAction, OptionLegIntent, sole, is_put, is_call,
}
use ibkr_strategy_engine.Domain.Loss.{intrinsic_by, add_legs}
use ibkr_strategy_engine.Domain.Payoff.{
  add_legs-classes, class_total-sole, class_total-other, is_unit_ratio,
}

-- A short option and its protection: the short pays at most the width of the wing more.
put_wing :
    (short long at : ℤ)
    → long ≤ℤ short
    → pos_part (intrinsic_by OptionRight.put short at) + neg_part (short -ℤ long)
      ≤ pos_part (intrinsic_by OptionRight.put long at) + pos_part (short -ℤ long)
put_wing short long at h = ground (arith, -ℤ_parts short at, -ℤ_parts long at, -ℤ_parts short long)

call_wing :
    (short long at : ℤ)
    → short ≤ℤ long
    → pos_part (intrinsic_by OptionRight.call short at) + neg_part (long -ℤ short)
      ≤ pos_part (intrinsic_by OptionRight.call long at) + pos_part (long -ℤ short)
call_wing short long at h = ground (arith, -ℤ_parts at short, -ℤ_parts at long, -ℤ_parts long short)

-- The short strikes of a condor cannot both be breached.
one_side :
    (short_put short_call at : ℤ)
    → short_put <ℤ short_call
    → (pos_part (intrinsic_by OptionRight.put short_put at) ≡ 0)
      ⊎ (pos_part (intrinsic_by OptionRight.call short_call at) ≡ 0)
one_side short_put short_call at h = ground (arith, -ℤ_parts short_put at, -ℤ_parts at short_call)

-- What the legs lose is at most the width `w`: the payoff is at least the credit less `w`.
abbrev pub LosesAtMost : ℤ → ℤ → List OptionLegIntent → Type 0
LosesAtMost w at legs =
    (net : ℤ)
    → pos_part net + neg_part w + neg_part (add_legs at net legs)
      ≤ neg_part net + pos_part w + pos_part (add_legs at net legs)

module _ (legs : List OptionLegIntent) (unit : all is_unit_ratio legs ≡ true) (at : ℤ) where
  pub put_spread_bound :
      (short long : OptionLegIntent)
      → sole legs OptionRight.put OrderAction.sell ≡ some short
      → sole legs OptionRight.put OrderAction.buy ≡ some long
      → all (λ leg. is_put leg.right) legs ≡ true
      → long.strike ≤ℤ short.strike
      → LosesAtMost (short.strike -ℤ long.strike) at legs
  put_spread_bound short long ps pl puts below net = omega (
    arith,
    add_legs-classes at net legs,
    class_total-sole OptionRight.put OrderAction.sell at legs short ps unit,
    class_total-sole OptionRight.put OrderAction.buy at legs long pl unit,
    (class_total-other OrderAction.sell at legs).0 puts,
    (class_total-other OrderAction.buy at legs).0 puts,
    put_wing short.strike long.strike at below,
  )

  pub call_spread_bound :
      (short long : OptionLegIntent)
      → sole legs OptionRight.call OrderAction.sell ≡ some short
      → sole legs OptionRight.call OrderAction.buy ≡ some long
      → all (λ leg. is_call leg.right) legs ≡ true
      → short.strike ≤ℤ long.strike
      → LosesAtMost (long.strike -ℤ short.strike) at legs
  call_spread_bound short long ps pl calls above net = omega (
    arith,
    add_legs-classes at net legs,
    class_total-sole OptionRight.call OrderAction.sell at legs short ps unit,
    class_total-sole OptionRight.call OrderAction.buy at legs long pl unit,
    (class_total-other OrderAction.sell at legs).1 calls,
    (class_total-other OrderAction.buy at legs).1 calls,
    call_wing short.strike long.strike at above,
  )

  pub condor_bound :
      (sp lp sc lc : OptionLegIntent)
      → sole legs OptionRight.put OrderAction.sell ≡ some sp
      → sole legs OptionRight.put OrderAction.buy ≡ some lp
      → sole legs OptionRight.call OrderAction.sell ≡ some sc
      → sole legs OptionRight.call OrderAction.buy ≡ some lc
      → lp.strike ≤ℤ sp.strike
      → sc.strike ≤ℤ lc.strike
      → sp.strike <ℤ sc.strike
      → LosesAtMost (max_ℤ (sp.strike -ℤ lp.strike) (lc.strike -ℤ sc.strike)) at legs
  condor_bound sp lp sc lc psp plp psc plc below above apart net = grind (
    arith,
    add_legs-classes at net legs,
    class_total-sole OptionRight.put OrderAction.sell at legs sp psp unit,
    class_total-sole OptionRight.put OrderAction.buy at legs lp plp unit,
    class_total-sole OptionRight.call OrderAction.sell at legs sc psc unit,
    class_total-sole OptionRight.call OrderAction.buy at legs lc plc unit,
    put_wing sp.strike lp.strike at below,
    call_wing sc.strike lc.strike at above,
    one_side sp.strike sc.strike at apart,
    -ℤ_parts sp.strike lp.strike,
    -ℤ_parts lc.strike sc.strike,
  )
