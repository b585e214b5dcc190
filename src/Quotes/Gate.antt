-- ===== src/Quotes/Gate.antt =====
-- engine/src/engine/options/marketdata.py: `require_uniform_live_provenance`, and with it the first check of
-- engine/src/engine/options/risk.py.
use ibkr_strategy_engine.Prelude.{
  ◌==◌, ℤ, ◌-ℤ◌, ltb_ℤ, String, str_eq, Bool, true, false, not, ◌&&◌, ◌||◌, if◌then◌else◌, Option,
  none, some, is_some, List, [], ◌∷◌, all, any, select,
}
use ibkr_strategy_engine.Prelude.Result.{Result, ok, err, ◌>>=◌, ◌>>◌, refuse_if}
use ibkr_strategy_engine.Domain.Legs.{OptionLegIntent}
use ibkr_strategy_engine.Quotes.{
  MarketDataProvenance, liveness, is_live, OptionGreeks, UnderlyingQuote, OptionQuote, Key,
  same_key, Generations, RefusalReason, no_quotes,
}

-- A refusal, or the `KeyError` of a subscript.
pub data GateError : Type 0 where
  refused : RefusalReason → GateError
  key_error : GateError

abbrev pub refuse_when : Bool → RefusalReason → Result GateError Unit
refuse_when test reason = refuse_if test (GateError.refused reason)

-- `age is None or age > maximum_age`
abbrev pub is_old : ℤ → ℤ → Option ℤ → Bool
is_old decision_time maximum_age none = true
is_old decision_time maximum_age (some event) = ltb_ℤ maximum_age (decision_time -ℤ event)

unfoldable pub require_live_quote : ℤ → ℤ → String → MarketDataProvenance → Result GateError Unit
require_live_quote decision_time maximum_age active_generation p = do
  refuse_when (not p.callback_received) RefusalReason.no_data_type_callback
  refuse_when (not (is_live (liveness p))) RefusalReason.realtime_data_required
  refuse_when (not (str_eq p.subscription_generation active_generation))
      RefusalReason.generation_mismatch
  refuse_when (not (is_some p.last_provider_event_at)) RefusalReason.no_provider_timestamp
  refuse_when (not (is_some p.last_local_receive_at)) RefusalReason.no_local_timestamp
  refuse_when (is_old decision_time maximum_age p.last_provider_event_at) RefusalReason.stale_quote

-- `active_generations[key]`
unfoldable pub active_generation : Generations → Key → Result GateError String
active_generation [] key = err GateError.key_error
active_generation ((known, generation) ∷ generations) key =
    let rest = active_generation generations key in
    if same_key key known then ok generation else rest

-- The loop over the legs.
unfoldable pub require_live_legs : ℤ → ℤ → Generations → List OptionQuote → Result GateError Unit
unfolding require_live_quote active_generation
require_live_legs decision_time maximum_age generations [] = ok tt
require_live_legs decision_time maximum_age generations (q ∷ legs) = do
  active ← active_generation generations (Key.contract q.con_id)
  require_live_quote decision_time maximum_age active q.provenance
  require_live_legs decision_time maximum_age generations legs

abbrev pub has_valid_delta : Option OptionGreeks → Bool
has_valid_delta none = true
has_valid_delta (some g) = is_some g.delta

abbrev pub is_superseded : Option OptionGreeks → String → Bool
is_superseded none active = false
is_superseded (some g) active = not (str_eq g.subscription_generation active)

-- Whether `stale_greeks` has a leg.
unfoldable pub any_stale : Generations → List OptionQuote → Result GateError Bool
unfolding active_generation
any_stale generations [] = ok false
any_stale generations (q ∷ legs) = do
  active ← active_generation generations (Key.contract q.con_id)
  rest ← any_stale generations legs
  ok (is_superseded q.greeks active || rest)

unfoldable pub require_uniform_live_provenance :
    ℤ → ℤ → Generations → UnderlyingQuote → List OptionQuote → Result GateError Unit
unfolding require_live_legs any_stale
require_uniform_live_provenance decision_time maximum_age generations underlying legs = do
  refuse_when (no_quotes legs) RefusalReason.mixed_provenance
  active ← active_generation generations Key.underlying
  require_live_quote decision_time maximum_age active underlying.provenance
  require_live_legs decision_time maximum_age generations legs
  refuse_when
      (not (
        is_live (liveness underlying.provenance)
        && all (λ q. is_live (liveness q.provenance)) legs))
      RefusalReason.mixed_provenance
  refuse_when (not (all (λ q. is_some q.greeks) legs)) RefusalReason.greeks_missing
  refuse_when (not (all (λ q. has_valid_delta q.greeks) legs)) RefusalReason.delta_invalid
  stale ← any_stale generations legs
  refuse_when stale RefusalReason.generation_mismatch

-- `execution_entitlement_set` of risk.py, for a strategy.
abbrev pub execution_entitlement_set : List OptionQuote → List OptionLegIntent → List OptionQuote
execution_entitlement_set quotes legs =
    select (λ q. any (λ leg. q.con_id == leg.con_id) legs) quotes
