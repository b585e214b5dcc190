-- ===== src/Quotes.antt =====
-- engine/src/engine/options/marketdata.py: quotes, where they come from, and the gate before a decision.
-- Instants and ages are in microseconds, a UUID is its text.
pub mod Gate
pub mod Live
pub mod Keyed
pub mod Subscription
pub mod Examples
use ibkr_strategy_engine.Prelude.{
  ℕ, ◌==◌, ℤ, pos, String, str_eq, Bool, true, false, not, Option, none, some, is_some, List, [],
  ◌∷◌, ◌&&◌, any, all, if◌then◌else◌,
}
use ibkr_strategy_engine.Prelude.Result.{Result, ok, err, ◌>>◌, refuse_if}

pub data Liveness : Type 0 where
  live frozen delayed delayed_frozen unknown : Liveness

pub record MarketDataProvenance : Type 0 where
  pub subscription_generation : String
  pub reported_type : Option ℕ
  pub callback_received : Bool
  pub last_provider_event_at : Option ℤ
  pub last_local_receive_at : Option ℤ

-- `_LIVENESS_BY_TYPE`, with what `MarketDataType` refuses.
abbrev pub liveness_by_type : ℕ → Liveness
liveness_by_type reported =
    if reported == 1
    then Liveness.live
    else if reported == 2
    then Liveness.frozen
    else if reported == 3
    then Liveness.delayed
    else if reported == 4
    then Liveness.delayed_frozen
    else Liveness.unknown

abbrev pub liveness_of : Bool → Option ℕ → Liveness
liveness_of true (some reported) = liveness_by_type reported
liveness_of _ _ = Liveness.unknown

-- `MarketDataProvenance.liveness`
unfoldable pub liveness : MarketDataProvenance → Liveness
liveness p = liveness_of p.callback_received p.reported_type

abbrev pub is_live : Liveness → Bool
is_live Liveness.live = true
is_live _ = false

-- What the checks read of an `OptionGreeks`.
pub record OptionGreeks : Type 0 where
  pub subscription_generation : String
  pub delta : Option ℤ

pub record UnderlyingQuote : Type 0 where
  pub symbol : String
  pub provenance : MarketDataProvenance

pub record OptionQuote : Type 0 where
  pub con_id : ℕ
  pub provenance : MarketDataProvenance
  pub bid : Option ℤ
  pub ask : Option ℤ
  pub open_interest : Option ℕ
  pub volume : Option ℕ
  pub greeks : Option OptionGreeks

-- The key of a subscription: UNDERLYING_GENERATION_KEY, or the text of a contract's number.
pub data Key : Type 0 where
  underlying : Key
  contract : ℕ → Key

abbrev pub same_key : Key → Key → Bool
same_key Key.underlying Key.underlying = true
same_key (Key.contract a) (Key.contract b) = a == b
same_key _ _ = false

abbrev pub Generations : Type 0
Generations = List (Key × String)

pub record StrategyQuoteSnapshot : Type 0 where
  pub underlying : UnderlyingQuote
  pub legs : List OptionQuote
  pub generations : Generations

abbrev pub has_key : Generations → Key → Bool
has_key generations key = any (λ entry. same_key key entry.0) generations

-- `len(known) != len(self.generations)`, negated.
unfoldable pub distinct_keys : Generations → Bool
distinct_keys [] = true
distinct_keys ((key, generation) ∷ generations) =
    not (has_key generations key) && distinct_keys generations

pub data RefusalReason : Type 0 where
  realtime_data_required no_data_type_callback stale_quote no_provider_timestamp : RefusalReason
  no_local_timestamp generation_mismatch mixed_provenance greeks_missing delta_invalid :
      RefusalReason

abbrev pub no_quotes : List OptionQuote → Bool
no_quotes [] = true
no_quotes _ = false

-- `StrategyQuoteSnapshot.__post_init__` of ports.py.
unfoldable pub make_snapshot : StrategyQuoteSnapshot → Result RefusalReason StrategyQuoteSnapshot
make_snapshot s = do
  refuse_if (no_quotes s.legs) RefusalReason.mixed_provenance
  refuse_if (not (distinct_keys s.generations)) RefusalReason.generation_mismatch
  refuse_if
      (not (
        has_key s.generations Key.underlying
        && all (λ q. has_key s.generations (Key.contract q.con_id)) s.legs))
      RefusalReason.generation_mismatch
  ok s
