-- ===== src/Safety/Examples.antt =====
-- engine/src/engine/safety.py: an order for two shares under small caps.
use ibkr_strategy_engine.Prelude.{
  ◌≡◌, refl, arith, pos, negsuc, ◌≤ℤ◌, ◌+ℤ◌, ◌-ℤ◌, ◌*ℤ◌, abs, true, false, none, some, [], ◌∷◌,
  strip, upper,
}
use ibkr_strategy_engine.Prelude.Result.{ok, err}
use ibkr_strategy_engine.Safety.{
  SafetyError, OrderIntent, SafetyGate, normalized_intent, resulting_position, gate_position,
  notional_of, gate_notional, check_preflight, check_tradeable, check,
}
use ibkr_strategy_engine.Safety.Caps.{passed, check_keeps_cap}

abbrev gate : SafetyGate
gate = record {
  symbol_allowlist = "SPY" ∷ "QQQ" ∷ [];
  max_position_qty = pos 3;
  max_order_notional = pos 1_000;
  max_orders_per_session = 5;
  max_margin_impact = pos 500;
  halt_file = none;
  orders_today = 4;
}

abbrev sale : OrderIntent
sale = record { symbol = " spy "; quantity = pos 4; side = "sell"; limit_price = none }

-- From one share long to three short, at 250.
sale-passes : check gate sale true (some (pos 250)) (pos 1) ≡ ok (passed sale)
unfolding check check_preflight check_tradeable gate_position gate_notional notional_of
    resulting_position normalized_intent strip upper ◌+ℤ◌ ◌-ℤ◌ ◌*ℤ◌
sale-passes = refl

-- From one short, the same sale would be two short too many.
over_position_test :
    check gate sale true (some (pos 250)) (negsuc 0) ≡ err SafetyError.over_position
unfolding check check_preflight check_tradeable gate_position gate_notional notional_of
    resulting_position normalized_intent strip upper ◌+ℤ◌ ◌-ℤ◌ ◌*ℤ◌
over_position_test = refl

-- A halt comes before every other refusal.
halted_test :
    check (record gate { halt_file = some ""; symbol_allowlist = [] }) sale false none (pos 1)
    ≡ err SafetyError.halted
unfolding check check_preflight
halted_test = refl

check_keeps_cap_example :
    pos (abs (resulting_position (passed sale).side (pos 1) (pos 2))) ≤ℤ gate.max_position_qty
unfolding normalized_intent
check_keeps_cap_example =
    check_keeps_cap gate sale (passed sale) true (some (pos 250)) (pos 1) 4 2 sale-passes refl
      (omega arith) (omega arith)
