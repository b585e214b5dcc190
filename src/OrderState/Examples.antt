-- ===== src/OrderState/Examples.antt =====
-- engine/src/engine/options/orderstate.py: the readings on concrete orders.
use ibkr_strategy_engine.Prelude.{
  pos, ◌≡◌, ◌≤ℤ◌, refl, Bool, true, false, none, some, lower, strip, if◌then◌else◌,
}
use ibkr_strategy_engine.OrderState.Broker.{OrderLifecycleState, BrokerField}
use ibkr_strategy_engine.OrderState.Verdicts.{snapshot_filled_is_full}
use ibkr_strategy_engine.OrderState.{
  Observation, Moment, BrokerOrderSnapshot, Trade, classify, by_fill, by_text, snapshot_from_trade,
  of_int,
}

status_test : lower (strip "  Pre Submitted\t") ≡ "pre submitted"
unfolding lower strip
status_test = refl

-- Two of two contracts filled.
abbrev full : Observation
full = record {
  raw_status = " Filled ";
  filled = BrokerField.number (pos 20_000);
  remaining = BrokerField.number (pos 0);
  quantity = some 2;
  timed_out = false;
  disconnected = false;
  rejected_message = none;
}

-- Cancelled after one of two.
abbrev cut_short : Observation
cut_short = record full {
  raw_status = "ApiCancelled";
  filled = BrokerField.number (pos 10_000);
  remaining = BrokerField.number (pos 10_000);
}

-- One of two, the order still working.
abbrev halfway : Observation
halfway = record cut_short { raw_status = "Submitted" }

-- The broker says that nothing remains, with one of two filled.
abbrev at_odds : Observation
at_odds = record halfway { remaining = BrokerField.number (pos 0) }

at_odds_test : classify at_odds ≡ OrderLifecycleState.unknown
unfolding classify by_fill by_text lower strip
at_odds_test = refl

-- A status that no rule knows, with nothing filled, is unknown.
late_test :
    classify (record full { raw_status = "ValidationError"; filled = BrokerField.junk })
    ≡ OrderLifecycleState.unknown
unfolding classify by_fill by_text lower strip
late_test = refl

abbrev morning : Moment
morning = record { aware = true; seconds = 34_200 }

abbrev trade : Trade
trade = record {
  status = "Filled";
  filled = BrokerField.number (pos 20_000);
  remaining = BrokerField.number (pos 0);
  avg_fill_price = BrokerField.number (pos 12_500);
  commission = BrokerField.absent;
  order_id = some 7;
  order_perm_id = some 0;
  status_perm_id = none;
  last_log_message = "";
}

-- The snapshots of `trade`, connected and not.
abbrev taken : Bool → BrokerOrderSnapshot
taken disconnected = record {
  state = if disconnected then OrderLifecycleState.unknown else OrderLifecycleState.filled;
  observed_at = morning;
  raw_status = "Filled";
  order_id = some 7;
  perm_id = none;
  filled = pos 20_000;
  remaining = some (pos 0);
  average_price = some (pos 12_500);
  commission = none;
  message = if disconnected then some "connection lost while awaiting the order outcome" else none;
}

snapshot_filled_is_full_example : of_int 2 ≤ℤ pos 20_000
unfolding snapshot_from_trade classify by_fill by_text lower strip
snapshot_filled_is_full_example =
    snapshot_filled_is_full trade morning 2 false false (taken false) refl refl
