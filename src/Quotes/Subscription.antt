-- ===== src/Quotes/Subscription.antt =====
-- engine/src/engine/options/marketdata.py: `MarketDataSubscription`, the callbacks that it is fed, and the gate
-- on what it shows. A greek is in ten-thousandths; `uuid4` is an argument.
use ibkr_strategy_engine.Prelude.{
  ℕ, ℤ, pos, negsuc, ltb_ℤ, String, str_eq, Bool, true, false, not, Option, none, some, List, [],
  ◌∷◌, ◌≡◌, refl, sym, ◌∙◌, ap, arith, if◌then◌else◌, Bool-cases, inl, inr,
}
use ibkr_strategy_engine.Prelude.Result.{ok}
use ibkr_strategy_engine.Governor.Policy.{scale}
use ibkr_strategy_engine.OrderState.Broker.{BrokerField, decimal}
use ibkr_strategy_engine.Quotes.{
  Liveness, MarketDataProvenance, liveness_by_type, liveness_of, liveness, OptionGreeks,
}
use ibkr_strategy_engine.Quotes.Gate.{require_live_quote}
use ibkr_strategy_engine.Quotes.Live.{require_live_quote-IsCurrent}

pub record MarketDataSubscription : Type 0 where
  pub generation : String
  pub reported_type : Option ℕ
  pub callback_received : Bool
  pub last_provider_event_at : Option ℤ
  pub last_local_receive_at : Option ℤ
  pub greeks : Option OptionGreeks

-- A subscription as it is made, or restarted.
abbrev pub subscribe : String → MarketDataSubscription
subscribe generation = record {
  generation = generation;
  reported_type = none;
  callback_received = false;
  last_provider_event_at = none;
  last_local_receive_at = none;
  greeks = none;
}

-- `-1.0 <= value <= 1.0`, which the marker for an unset value is not.
abbrev pub in_range : Option ℤ → Option ℤ
in_range none = none
in_range (some value) =
    if ltb_ℤ (pos scale) value
    then none
    else if ltb_ℤ value (negsuc 9_999)
    then none
    else some value

-- `normalize_greek` for a delta.
abbrev pub normalize_delta : BrokerField → Option ℤ
normalize_delta value = in_range (decimal value)

-- A call of the adapter: `restart`, `record_data_type`, `record_greeks` and `record_provider_event`.
pub data Callback : Type 0 where
  restart : String → Callback
  data_type : ℕ → ℤ → Callback
  greeks : BrokerField → ℤ → Option String → Callback
  provider_event : ℤ → Callback

-- `generation is not None and generation != self.generation`
abbrev pub is_foreign : Option String → String → Bool
is_foreign none generation = false
is_foreign (some observed) generation = not (str_eq observed generation)

unfoldable pub record_callback : Callback → MarketDataSubscription → MarketDataSubscription
record_callback (Callback.restart generation) s = subscribe generation
record_callback (Callback.data_type reported at) s = record s {
  reported_type = some reported;
  callback_received = true;
  last_local_receive_at = some at;
}
record_callback (Callback.greeks delta at observed) s =
    if is_foreign observed s.generation then s else record s {
      greeks =
          some (record { subscription_generation = s.generation; delta = normalize_delta delta });
      last_local_receive_at = some at;
    }
record_callback (Callback.provider_event at) s = record s { last_provider_event_at = some at }

-- The callbacks of a subscription, the first first.
unfoldable pub record_all : List Callback → MarketDataSubscription → MarketDataSubscription
unfolding record_callback
record_all [] s = s
record_all (c ∷ callbacks) s = record_all callbacks (record_callback c s)

abbrev pub provenance : MarketDataSubscription → MarketDataProvenance
provenance s = record {
  subscription_generation = s.generation;
  reported_type = s.reported_type;
  callback_received = s.callback_received;
  last_provider_event_at = s.last_provider_event_at;
  last_local_receive_at = s.last_local_receive_at;
}

abbrev pub of_generation : Option OptionGreeks → String → Option OptionGreeks
of_generation none generation = none
of_generation (some g) generation =
    if str_eq g.subscription_generation generation then some g else none

-- `current_greeks`
abbrev pub current_greeks : MarketDataSubscription → Option OptionGreeks
current_greeks s = of_generation s.greeks s.generation

-- What the provider has said last, since the last restart.
abbrev pub said : Callback → Option ℕ → Option ℕ
said (Callback.restart generation) before = none
said (Callback.data_type reported at) before = some reported
said _ before = before

unfoldable pub last_said : List Callback → Option ℕ → Option ℕ
last_said [] before = before
last_said (c ∷ callbacks) before = last_said callbacks (said c before)

-- The generation that is in force after the callbacks.
abbrev pub renewed : Callback → String → String
renewed (Callback.restart generation) before = generation
renewed _ before = before

unfoldable pub last_generation : List Callback → String → String
last_generation [] before = before
last_generation (c ∷ callbacks) before = last_generation callbacks (renewed c before)

-- What a subscription shows of what was said.
abbrev told : MarketDataSubscription → Option ℕ
told s = if s.callback_received then s.reported_type else none

record_callback-told :
    (c : Callback) (s : MarketDataSubscription) → told (record_callback c s) ≡ said c (told s)
unfolding record_callback
record_callback-told (Callback.restart generation) s = refl
record_callback-told (Callback.data_type reported at) s = refl
record_callback-told (Callback.greeks delta at observed) s =
    elim (Bool-cases (is_foreign observed s.generation)) [ inl e ↦ rw e refl | inr e ↦ rw e refl ]
record_callback-told (Callback.provider_event at) s = refl

record_callback-generation :
    (c : Callback) (s : MarketDataSubscription)
    → (record_callback c s).generation ≡ renewed c s.generation
unfolding record_callback
record_callback-generation (Callback.restart generation) s = refl
record_callback-generation (Callback.data_type reported at) s = refl
record_callback-generation (Callback.greeks delta at observed) s =
    elim (Bool-cases (is_foreign observed s.generation)) [ inl e ↦ rw e refl | inr e ↦ rw e refl ]
record_callback-generation (Callback.provider_event at) s = refl

record_all-told :
    (callbacks : List Callback) (s : MarketDataSubscription)
    → told (record_all callbacks s) ≡ last_said callbacks (told s)
unfolding record_all last_said
record_all-told [] s = refl
record_all-told (c ∷ callbacks) s =
    record_all-told callbacks (record_callback c s)
    ∙ ap (last_said callbacks) (record_callback-told c s)

record_all-generation :
    (callbacks : List Callback) (s : MarketDataSubscription)
    → (record_all callbacks s).generation ≡ last_generation callbacks s.generation
unfolding record_all last_generation
record_all-generation [] s = refl
record_all-generation (c ∷ callbacks) s =
    record_all-generation callbacks (record_callback c s)
    ∙ ap (last_generation callbacks) (record_callback-generation c s)

one_is_live : (reported : ℕ) → liveness_by_type reported ≡ Liveness.live → reported ≡ 1
one_is_live reported h = ground arith

live_told : (s : MarketDataSubscription) → liveness (provenance s) ≡ Liveness.live → told s ≡ some 1
unfolding liveness
live_told s h = by_fields s.callback_received s.reported_type h
  where
    by_fields :
        (b : Bool) (o : Option ℕ)
        → liveness_of b o ≡ Liveness.live
        → (if b then o else none) ≡ some 1
    by_fields true (some reported) e = ap some (one_is_live reported e)
    by_fields true none e = absurd (cc e)
    by_fields false o e = absurd (cc e)

-- Whatever callbacks a subscription was fed, the gate passes on its provenance only if live was the last type
-- that the provider has reported since the last restart, and the generation that the caller takes for
-- the active one is that of the last restart.
pub gate-last_said :
    (callbacks : List Callback) (first active : String) (decision_time maximum_age : ℤ)
    → require_live_quote decision_time maximum_age active
        (provenance (record_all callbacks (subscribe first)))
      ≡ ok tt
    → (last_said callbacks none ≡ some 1) × (last_generation callbacks first ≡ active)
gate-last_said callbacks first active decision_time maximum_age h =
    let s = record_all callbacks (subscribe first) in
    let is = require_live_quote-IsCurrent decision_time maximum_age active (provenance s) h in
    (
      sym (record_all-told callbacks (subscribe first)) ∙ live_told s is.live,
      sym (record_all-generation callbacks (subscribe first)) ∙ is.generation,
    )
