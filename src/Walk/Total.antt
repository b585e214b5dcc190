-- ===== src/Walk/Total.antt =====
-- engine/src/engine/options/walk.py: no check of the price ladder stops a walk.
use ibkr_strategy_engine.Prelude.{
  ℕ, ltb_ℤ, ℤ, pos, ◌+ℤ◌, ◌-ℤ◌, ◌≤ℤ◌, max_ℤ, int_laws, ◌≡◌, refl, sym, ◌∙◌, ◌⊎◌, inl, inr, arith,
  true, Option, none, some, if◌then◌else◌, All,
}
use ibkr_strategy_engine.Prelude.Result.{Result, ok, err}
use ibkr_strategy_engine.Domain.Legs.{PriceEffect, OptionStrategyIntent}
use ibkr_strategy_engine.Pricing.{PricingError}
use ibkr_strategy_engine.Pricing.Regimes.{tick_regime_made}
use ibkr_strategy_engine.Pricing.Ladder.{
  PriceLadder, PriceEnvelope, min_ℤ, ladder_fractions, build_ladder,
}
use ibkr_strategy_engine.Pricing.Total.{Returns, IsPart, build_ladder_total}
use ibkr_strategy_engine.Walk.{
  WalkPolicy, make_policy, contains, vertical_width, below_width, tenth, absolute_tolerance,
  lowest_credit, floor_of, envelope_for, floor_for,
}
use ibkr_strategy_engine.Walk.Rung.{Authorization, World, Plan, WalkError, Exit}
use ibkr_strategy_engine.Walk.Ends.{Tidy, Raises}
use ibkr_strategy_engine.Walk.Ends.Rungs.{rungs-Tidy}
use ibkr_strategy_engine.Walk.Run.{WalkOutcome, rungs, ending, initial, plan_of, run}

below-nonneg : (o : Option ℕ) (m : ℤ) → pos 0 ≤ℤ m → pos 0 ≤ℤ below_width o m
below-nonneg none m h = h
below-nonneg (some width) m h = by_ceiling m (pos width -ℤ lowest_credit) h
  where
    by_ceiling : (m c : ℤ) → pos 0 ≤ℤ m → pos 0 ≤ℤ (if ltb_ℤ (pos 0) c then min_ℤ m c else m)
    by_ceiling m c h = ground arith

sum-nonneg :
    (reference tolerance : ℤ)
    → pos 0 ≤ℤ reference
    → pos 0 ≤ℤ tolerance
    → pos 0 ≤ℤ reference +ℤ tolerance
sum-nonneg reference tolerance h k = grind int_laws

tolerance-nonneg : (t : ℤ) → pos 0 ≤ℤ max_ℤ absolute_tolerance t
tolerance-nonneg t = ground arith

envelope_maximum :
    (intent : OptionStrategyIntent)
    → pos 0 ≤ℤ intent.limit_price
    → pos 0 ≤ℤ (envelope_for intent).maximum
unfolding envelope_for
envelope_maximum intent h =
    below-nonneg (vertical_width intent.legs) _
      (sum-nonneg intent.limit_price _ h (tolerance-nonneg (tenth intent.limit_price)))

max-above : (a b : ℤ) → b ≤ℤ max_ℤ a b
max-above a b = ground arith

envelope_minimum : (intent : OptionStrategyIntent) → lowest_credit ≤ℤ (envelope_for intent).minimum
unfolding envelope_for
envelope_minimum intent =
    max-above (intent.limit_price -ℤ max_ℤ absolute_tolerance (tenth intent.limit_price))
      lowest_credit

floor-nonneg :
    (policy : WalkPolicy) (intent : OptionStrategyIntent)
    → pos 0 ≤ℤ policy.minimum_credit
    → pos 0 ≤ℤ floor_for policy intent
unfolding floor_for
floor-nonneg policy intent h = by_width (vertical_width intent.legs)
  where
    by_width : (o : Option ℕ) → pos 0 ≤ℤ floor_of policy o
    by_width none = h
    by_width (some width) = ground arith

parts : All IsPart ladder_fractions
parts = (
  (omega arith, omega arith),
  ((omega arith, omega arith), ((omega arith, omega arith), ((omega arith, omega arith), tt))),
)

contained-nonneg :
    (envelope : PriceEnvelope) (m : ℤ)
    → lowest_credit ≤ℤ envelope.minimum
    → contains envelope m ≡ true
    → pos 0 ≤ℤ m
contained-nonneg envelope m low h = ground arith

policy_low :
    (policy made : WalkPolicy) → make_policy policy ≡ ok made → pos 0 ≤ℤ policy.minimum_credit
unfolding make_policy
policy_low policy made h = ground arith

-- What an exception means: the ladder raises none.
abbrev OnlyEscapes : World → WalkError → Type 0
OnlyEscapes world (WalkError.pricing cause) = ⊥
OnlyEscapes world WalkError.escaped =
    (n : ℕ) × (i : OptionStrategyIntent) × (world.authorize n i ≡ Authorization.escapes)

-- The result of a walk: an outcome, or an exception that `authorize_open` raised.
abbrev IsAnswered : World → Result WalkError WalkOutcome → Type 0
IsAnswered world (ok out) = Unit
IsAnswered world (err cause) = OnlyEscapes world cause

ending-IsAnswered :
    (world : World) (plan : Plan) (exit : Exit)
    → Tidy plan (OnlyEscapes world) exit
    → IsAnswered world (ending world plan exit)
unfolding ending
ending-IsAnswered world plan (Exit.raised cause) i = i
ending-IsAnswered world plan (Exit.leave state walk) i = tt
ending-IsAnswered world plan (Exit.finish state walk) i = tt

clash :
    (m : Result PricingError (Option PriceLadder)) (l : Option PriceLadder) (cause : PricingError)
    → m ≡ ok l
    → m ≡ err cause
    → ⊥
clash m l cause h k = absurd (cc (sym h ∙ k))

-- Inside the envelope of a credit, no check of the ladder raises.
ladder_built :
    (policy : WalkPolicy) (intent : OptionStrategyIntent)
    → intent.price_effect ≡ PriceEffect.credit
    → pos 0 ≤ℤ intent.limit_price
    → pos 0 ≤ℤ policy.minimum_credit
    → Raises (plan_of policy intent) (λ _. ⊥)
unfolding envelope_for floor_for
ladder_built policy intent effect price low quotes cause priced e =
    let plan = plan_of policy intent in
    let (l, built) : Returns (
        build_ladder PriceEffect.credit intent.legs intent.underlying (some quotes) plan.envelope
          plan.floor (some plan.regime) ladder_fractions) =
      build_ladder_total intent.legs intent.underlying (some quotes) plan.envelope plan.floor
        (some plan.regime) ladder_fractions plan.regime (tick_regime_made intent.underlying)
        (envelope_maximum intent price) (floor-nonneg policy intent low)
        (λ m found. contained-nonneg plan.envelope m (envelope_minimum intent) (priced m found))
        parts in
    clash _ l cause built (rw effect at e)

-- A walk of a credit structure whose credit is not negative, by a policy that construction accepts, returns an
-- outcome, whatever the market data, the broker and the gates answer, as long as the callbacks return: no check
-- of the price ladder raises, and the one exception that leaves it is what `authorize_open` raised at some rung
-- and is not an `EngineError`.
pub run_total :
    (world : World) (policy made : WalkPolicy) (intent : OptionStrategyIntent)
    → make_policy policy ≡ ok made
    → intent.price_effect ≡ PriceEffect.credit
    → pos 0 ≤ℤ intent.limit_price
    → ((out : WalkOutcome) × (run world policy intent ≡ ok out))
      ⊎ ((run world policy intent ≡ err WalkError.escaped)
          × (n : ℕ) × (i : OptionStrategyIntent) × (world.authorize n i ≡ Authorization.escapes))
unfolding run
run_total world policy made intent valid effect price =
    let plan = plan_of policy intent in
    by_result (ending world plan (rungs world plan policy.maximum_attempts 0 initial)) refl (
      ending-IsAnswered world plan (rungs world plan policy.maximum_attempts 0 initial) (
        rungs-Tidy world plan (OnlyEscapes world)
          (λ quotes cause priced e. absurd (
            ladder_built policy intent effect price (policy_low policy made valid) quotes cause
              priced e))
          (λ n i e. (n, i, e)) policy.maximum_attempts 0 initial))
  where
    by_result :
        (m : Result WalkError WalkOutcome)
        → run world policy intent ≡ m
        → IsAnswered world m
        → ((out : WalkOutcome) × (run world policy intent ≡ ok out))
          ⊎ ((run world policy intent ≡ err WalkError.escaped)
              × (n : ℕ) × (i : OptionStrategyIntent) × (world.authorize n i
                  ≡ Authorization.escapes))
    by_result (ok out) e a = inl (out, e)
    by_result (err (WalkError.pricing cause)) e a = absurd a
    by_result (err WalkError.escaped) e a = inr (e, a.0, a.1, a.2)
