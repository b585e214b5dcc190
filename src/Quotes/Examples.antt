-- ===== src/Quotes/Examples.antt =====
-- engine/src/engine/options/marketdata.py: a snapshot of the two legs of a spread.
use ibkr_strategy_engine.Prelude.{
  List, none, ℕ, ℤ, pos, ◌-ℤ◌, String, true, some, [], ◌∷◌, ◌≡◌, refl,
}
use ibkr_strategy_engine.Prelude.Result.{ok, err}
use ibkr_strategy_engine.Domain.Examples.{short_put, long_put}
use ibkr_strategy_engine.Quotes.{
  MarketDataProvenance, OptionQuote, Key, StrategyQuoteSnapshot, RefusalReason, distinct_keys,
  make_snapshot, liveness,
}
use ibkr_strategy_engine.Quotes.Gate.{
  GateError, require_live_quote, require_uniform_live_provenance, execution_entitlement_set,
}
use ibkr_strategy_engine.OrderState.Broker.{BrokerField}
use ibkr_strategy_engine.Quotes.Subscription.{
  Callback, subscribe, record_callback, record_all, current_greeks, last_said, last_generation,
  gate-last_said,
}
use ibkr_strategy_engine.Quotes.Keyed.{IsKeyed, require_uniform-IsKeyed}

abbrev from : String → MarketDataProvenance
from generation = record {
  subscription_generation = generation;
  reported_type = some 1;
  callback_received = true;
  last_provider_event_at = some (pos 1_000);
  last_local_receive_at = some (pos 1_005);
}

abbrev quoted : ℕ → String → ℤ → ℤ → OptionQuote
quoted con_id generation bid ask = record {
  con_id = con_id;
  provenance = from generation;
  bid = some bid;
  ask = some ask;
  open_interest = some 500;
  volume = some 40;
  greeks = some (record { subscription_generation = generation; delta = some (pos 20) });
}

abbrev pub snapshot : StrategyQuoteSnapshot
snapshot = record {
  underlying = record { symbol = "SPY"; provenance = from "g0" };
  legs = quoted 101 "g1" (pos 40) (pos 42) ∷ quoted 102 "g2" (pos 20) (pos 22) ∷ [];
  generations = (Key.underlying, "g0") ∷ (Key.contract 101, "g1") ∷ (Key.contract 102, "g2") ∷ [];
}

snapshot_made : make_snapshot snapshot ≡ ok snapshot
unfolding make_snapshot distinct_keys
snapshot_made = refl

-- A quote of an earlier subscription is refused.
superseded_test :
    require_live_quote (pos 1_010) (pos 100) "g9" (from "g1")
    ≡ err (GateError.refused RefusalReason.generation_mismatch)
unfolding require_live_quote liveness
superseded_test = refl

require_uniform-IsKeyed_example : IsKeyed (
    require_uniform_live_provenance
      (pos 1_010)
      (pos 100)
      snapshot.generations
      snapshot.underlying
      (execution_entitlement_set snapshot.legs (short_put ∷ long_put ∷ [])))
require_uniform-IsKeyed_example =
    require_uniform-IsKeyed snapshot snapshot (short_put ∷ long_put ∷ []) (pos 1_010) (pos 100)
      snapshot_made

-- Delayed data, a new subscription, a greek that was still on its way, and live data.
abbrev callbacks : List Callback
callbacks =
    Callback.data_type 3 (pos 900)
    ∷ Callback.restart "g2"
    ∷ Callback.greeks (BrokerField.number (pos 4_000)) (pos 990) (some "g1")
    ∷ Callback.data_type 1 (pos 1_005)
    ∷ Callback.provider_event (pos 1_000)
    ∷ []

late_greeks_test : current_greeks (record_all callbacks (subscribe "g1")) ≡ none
unfolding record_all record_callback
late_greeks_test = refl

gate-last_said_example :
    (last_said callbacks none ≡ some 1) × (last_generation callbacks "g1" ≡ "g2")
unfolding record_all record_callback require_live_quote liveness ◌-ℤ◌
gate-last_said_example = gate-last_said callbacks "g1" "g2" (pos 1_010) (pos 100) refl
