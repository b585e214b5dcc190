-- ===== src/Walk/Examples.antt =====
-- engine/src/engine/options/walk.py: a walk that fills on its second rung.
use ibkr_strategy_engine.Prelude.{
  ℕ, zero, suc, ◌+◌, ◌*◌, ◌≤◌, ◌⊎◌, ltb, if◌then◌else◌, subst, arith, pos_part, All, ℤ, pos, true,
  false, Option, none, some, [], ◌∷◌, ◌≡◌, refl, strip, upper,
}
use ibkr_strategy_engine.Prelude.Result.{ok, err}
use ibkr_strategy_engine.Domain.Legs.{OptionLegIntent, OptionStrategyIntent}
use ibkr_strategy_engine.Domain.Examples.{short_put, long_put, spread}
use ibkr_strategy_engine.OrderState.Broker.{OrderLifecycleState}
use ibkr_strategy_engine.Pricing.Ladder.{Fraction, PriceLadder}
use ibkr_strategy_engine.Pricing.{PricingError, penny_throughout}
use ibkr_strategy_engine.Governor.Policy.{scale}
use ibkr_strategy_engine.Walk.{WalkPolicy, make_policy}
use ibkr_strategy_engine.Walk.Orders.{BrokerOrderSnapshot, WalkState}
use ibkr_strategy_engine.Quotes.{Liveness}
use ibkr_strategy_engine.Walk.Rung.{Authorization, World, WalkError}
use ibkr_strategy_engine.Walk.Run.{WalkOutcome, rungs, initial, plan_of, run}
use ibkr_strategy_engine.Walk.Kept.{Shows}
use ibkr_strategy_engine.Walk.Fills.{IsWithin, IsAccounted, never_overfills}
use ibkr_strategy_engine.Walk.Sends.{IsSafe, sends_safely}
use ibkr_strategy_engine.Walk.Ends.Returned.{IsSettled, run-IsSettled}
use ibkr_strategy_engine.Walk.Total.{run_total}

-- The 500 put sold and the 495 put bought, in half cents: a width of 5.00.
abbrev sold : OptionLegIntent
sold = record short_put { strike = pos 100_000 }

abbrev bought : OptionLegIntent
bought = record long_put { strike = pos 99_000 }

abbrev entry : OptionStrategyIntent
entry = record spread {
  legs = sold ∷ bought ∷ [];
  limit_price = pos 180;
  maximum_loss_per_contract = pos 82_000;
}

abbrev policy : WalkPolicy
policy = record {
  dwell = pos 30_000_000;
  minimum_credit = pos 10;
  minimum_credit_fraction_of_width = record { numerator = 1; denominator = 10 };
  cancellation_timeout = pos 20_000_000;
  cancellation_poll = pos 1_000_000;
  maximum_attempts = 4;
}

abbrev at : OrderLifecycleState → ℤ → Option BrokerOrderSnapshot
at state filled = some (record { state = state; filled = filled })

-- The first order rests, and the second fills at once.
abbrev answer : ℕ → OptionStrategyIntent → Option BrokerOrderSnapshot
answer zero i = at OrderLifecycleState.acknowledged (pos 0)
answer (suc n) i = at OrderLifecycleState.filled (pos (i.quantity * scale))

-- One contract of an order that has any.
abbrev one_of : ℕ → ℤ
one_of quantity = if ltb 0 quantity then pos scale else pos 0

-- One of the two contracts fills during the cancellation of the first order.
abbrev market : World
market = record {
  look = λ n i. none;
  look_again = λ n i. at OrderLifecycleState.acknowledged (pos 0);
  cancelling = λ n i. record {
    accepted = true;
    first = none;
    rest = at OrderLifecycleState.cancelled (one_of i.quantity) ∷ [];
  };
  quotes = λ n. some (
      record {
        quote = record { con_id = 101; bid = some (pos 440); ask = some (pos 480) };
        liveness = Liveness.live;
      }
      ∷ record {
        quote = record { con_id = 102; bid = some (pos 260); ask = some (pos 300) };
        liveness = Liveness.live;
      }
      ∷ []);
  reverify = λ n again i.
      some (record { approved = true; risk = some true; governor = some true; refusals = [] });
  authorize = λ n i. Authorization.authorizes;
  send = λ n i. some (answer n i);
  last_look = λ i. none;
  last_cancelling = λ i. record { accepted = false; first = none; rest = [] };
}

-- One contract, after the fill of the other.
abbrev replacement : OptionStrategyIntent
replacement = record entry {
  quantity = 1;
  limit_price = pos 174;
  maximum_loss_per_contract = pos 82_600;
}

abbrev last_ladder : PriceLadder
last_ladder = record {
  start = 180;
  target = 162;
  floor = 162;
  ceiling = 198;
  regime = penny_throughout;
  requested = 180 ∷ 174 ∷ 168 ∷ 162 ∷ [];
  rungs = 180 ∷ 174 ∷ 168 ∷ 162 ∷ [];
}

abbrev both : WalkOutcome
both = record {
  strategy_id = "a1";
  state = WalkState.filled;
  ordered = 2;
  filled = 20_000;
  attempts =
      record {
        index = 1;
        credit = some (pos 180);
        quantity = 2;
        sent = true;
        filled_here = 0;
        snapshot = at OrderLifecycleState.acknowledged (pos 0);
        refusal = none;
      }
      ∷ record {
        index = 2;
        credit = some (pos 174);
        quantity = 1;
        sent = true;
        filled_here = 10_000;
        snapshot = at OrderLifecycleState.filled (pos 10_000);
        refusal = none;
      }
      ∷ [];
  envelope = record { minimum = pos 162; maximum = pos 198 };
  ladder = some last_ladder;
  released = 0;
  working = some (record {
    intent = replacement;
    credited = 10_000;
    snapshot = at OrderLifecycleState.filled (pos 10_000);
  });
  let_go =
      record {
        intent = record replacement {
          quantity = 2;
          limit_price = pos 180;
          maximum_loss_per_contract = pos 82_000;
        };
        credited = 10_000;
        snapshot = at OrderLifecycleState.cancelled (pos 10_000);
      }
      ∷ [];
}

run-both : run market policy entry ≡ ok both
unfolding run strip upper ibkr_strategy_engine.Pricing.midpoint_credit
    ibkr_strategy_engine.Prelude.◌+ℤ◌ ibkr_strategy_engine.Prelude.◌-ℤ◌
    ibkr_strategy_engine.Prelude.◌*ℤ◌ ibkr_strategy_engine.Walk.strikes
    ibkr_strategy_engine.Pricing.Ladder.build_ladder ibkr_strategy_engine.Pricing.Ladder.between
    ibkr_strategy_engine.Pricing.natural_credit ibkr_strategy_engine.Pricing.Ladder.find_band
    ibkr_strategy_engine.Pricing.quantize_credit ibkr_strategy_engine.Pricing.Ladder.find_ends
    ibkr_strategy_engine.Pricing.Ladder.climb ibkr_strategy_engine.Pricing.Ladder.requested_rungs
    ibkr_strategy_engine.Pricing.Ladder.send_rungs ibkr_strategy_engine.Pricing.Ladder.add_rungs
    ibkr_strategy_engine.Pricing.Ladder.check_rungs
    ibkr_strategy_engine.Domain.Loss.compute_maximum_loss_per_contract
    ibkr_strategy_engine.Domain.Checks.check_every_short_is_covered
    ibkr_strategy_engine.Domain.Checks.check_legs_are_coherent
    ibkr_strategy_engine.Domain.Checks.check_lifecycle
    ibkr_strategy_engine.Domain.Checks.check_maximum_loss
    ibkr_strategy_engine.Domain.Checks.check_opening
    ibkr_strategy_engine.Domain.Checks.check_scalars ibkr_strategy_engine.Domain.Checks.check_shape
    ibkr_strategy_engine.Domain.Checks.check_strike_ordering
    ibkr_strategy_engine.Domain.Checks.check_vertical ibkr_strategy_engine.Domain.Checks.con_ids
    ibkr_strategy_engine.Domain.Checks.distinct ibkr_strategy_engine.Domain.Checks.make_intent
    ibkr_strategy_engine.Domain.Legs.sole ibkr_strategy_engine.Domain.Loss.widest_wing
    ibkr_strategy_engine.OrderState.Broker.is_terminal ibkr_strategy_engine.Pricing.credit_of
    ibkr_strategy_engine.Pricing.quantize ibkr_strategy_engine.Pricing.quote_for
    ibkr_strategy_engine.Pricing.tick_regime_for ibkr_strategy_engine.Walk.Orders.poll
    ibkr_strategy_engine.Walk.Orders.settle ibkr_strategy_engine.Walk.Run.ending
    ibkr_strategy_engine.Walk.Run.pull ibkr_strategy_engine.Walk.Run.release
    ibkr_strategy_engine.Walk.Run.rungs ibkr_strategy_engine.Walk.Rung.check_full
    ibkr_strategy_engine.Walk.Rung.check_midpoint ibkr_strategy_engine.Walk.Rung.check_price
    ibkr_strategy_engine.Walk.Rung.fresh_quotes ibkr_strategy_engine.Walk.Rung.from_pricing
    ibkr_strategy_engine.Walk.Rung.is_uniformly_live ibkr_strategy_engine.Walk.Rung.look_at
    ibkr_strategy_engine.Walk.Rung.next_rung ibkr_strategy_engine.Walk.Rung.or_leave
    ibkr_strategy_engine.Walk.Rung.rung_at ibkr_strategy_engine.Walk.Rung.take_rung
    ibkr_strategy_engine.Walk.Rung.make_reverification
    ibkr_strategy_engine.Walk.Steps.authorize_and_send
    ibkr_strategy_engine.Walk.Steps.check_confirmed ibkr_strategy_engine.Walk.Steps.clear
    ibkr_strategy_engine.Walk.Steps.or_finish ibkr_strategy_engine.Walk.Steps.prepare
    ibkr_strategy_engine.Walk.Steps.price_and_verify ibkr_strategy_engine.Walk.Steps.resize
    ibkr_strategy_engine.Walk.Steps.rung ibkr_strategy_engine.Walk.Steps.sent
    ibkr_strategy_engine.Walk.envelope_for ibkr_strategy_engine.Walk.floor_for
    ibkr_strategy_engine.Walk.reprice ibkr_strategy_engine.Walk.vertical_width
run-both = refl

market-Shows : Shows IsWithin market
market-Shows = record {
  look = λ n i. tt;
  look_again = λ n i. omega arith;
  first = λ n i. tt;
  rest = λ n i. (one_of_within i.quantity, tt);
  sent = λ n i s e. subst (IsWithin i) (some-injective e) (answer_within n i);
  last_look = λ i. tt;
  last_first = λ i. tt;
  last_rest = λ i. tt;
}
  where
    some-injective :
        {a b : Option BrokerOrderSnapshot}
        → ◌≡◌ {A = Option (Option BrokerOrderSnapshot)} (some a) (some b)
        → a ≡ b
    some-injective h = cc

    answer_within : (n : ℕ) (i : OptionStrategyIntent) → IsWithin i (answer n i)
    answer_within zero i = omega arith
    answer_within (suc n) i = omega arith

    one_of_within : (quantity : ℕ) → pos_part (one_of quantity) ≤ quantity * scale
    one_of_within quantity = ground arith

never_overfills_example : IsAccounted both
never_overfills_example = never_overfills market policy entry both market-Shows run-both

sends_safely_example : (2 ≤ 4) × All (IsSafe market (plan_of policy entry)) both.attempts
sends_safely_example = sends_safely market policy entry both run-both

run-IsSettled_example :
    IsSettled (rungs market (plan_of policy entry) policy.maximum_attempts 0 initial) both
run-IsSettled_example = run-IsSettled market policy entry both run-both

policy_made : make_policy policy ≡ ok policy
unfolding make_policy
policy_made = refl

run_total_example :
    ((out : WalkOutcome) × (run market policy entry ≡ ok out))
    ⊎ ((run market policy entry ≡ err WalkError.escaped)
        × (n : ℕ) × (i : OptionStrategyIntent) × (market.authorize n i ≡ Authorization.escapes))
run_total_example = run_total market policy policy entry policy_made refl (omega arith)
