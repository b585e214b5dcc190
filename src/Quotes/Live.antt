-- ===== src/Quotes/Live.antt =====
-- engine/src/engine/options/marketdata.py: what the gate has established of the quotes that pass it.
use ibkr_strategy_engine.Prelude.{
  ℤ, ◌-ℤ◌, ◌≤ℤ◌, ltb_ℤ, String, str_eq, eq_iff, Bool, true, false, not, ◌&&◌, ◌||◌, Option, none,
  some, is_some, List, [], ◌∷◌, all, All, ◌≡◌, refl, sym, ◌∙◌, arith,
}
use ibkr_strategy_engine.Prelude.Result.{ok, >>-eq-ok, >>=-eq-ok, ok-injective}
use ibkr_strategy_engine.Quotes.{
  Liveness, MarketDataProvenance, liveness, is_live, OptionGreeks, UnderlyingQuote, OptionQuote,
  Key, Generations, RefusalReason, no_quotes,
}
use ibkr_strategy_engine.Quotes.Gate.{
  refuse_when, is_old, require_live_quote, active_generation, require_live_legs, has_valid_delta,
  is_superseded, any_stale, require_uniform_live_provenance,
}

-- Live data of the active subscription, no older than is allowed.
pub record IsCurrent (decision_time maximum_age : ℤ) (active : String) (p : MarketDataProvenance)
    : Type 0 where
  pub live : liveness p ≡ Liveness.live
  pub generation : p.subscription_generation ≡ active
  pub event : ℤ
  pub event_at : p.last_provider_event_at ≡ some event
  pub fresh : decision_time -ℤ event ≤ℤ maximum_age

-- A current quote, with a delta from the same subscription.
pub record IsUsable (decision_time maximum_age : ℤ) (generations : Generations) (q : OptionQuote)
    : Type 0 where
  pub active : String
  pub known : active_generation generations (Key.contract q.con_id) ≡ ok active
  pub current : IsCurrent decision_time maximum_age active q.provenance
  pub greeks : OptionGreeks
  pub computed : q.greeks ≡ some greeks
  pub delta : ℤ
  pub has_delta : greeks.delta ≡ some delta
  pub same : greeks.subscription_generation ≡ active

passed : (b : Bool) (reason : RefusalReason) → refuse_when b reason ≡ ok tt → b ≡ false
passed true reason h = absurd (cc h)
passed false reason h = refl

passed_not : (b : Bool) (reason : RefusalReason) → refuse_when (not b) reason ≡ ok tt → b ≡ true
passed_not true reason h = refl
passed_not false reason h = absurd (cc h)

live_of : (l : Liveness) → is_live l ≡ true → l ≡ Liveness.live
live_of Liveness.live h = refl
live_of Liveness.frozen h = absurd (cc h)
live_of Liveness.delayed h = absurd (cc h)
live_of Liveness.delayed_frozen h = absurd (cc h)
live_of Liveness.unknown h = absurd (cc h)

young :
    (decision_time maximum_age : ℤ) (o : Option ℤ)
    → is_old decision_time maximum_age o ≡ false
    → (event : ℤ) × (o ≡ some event) × (decision_time -ℤ event ≤ℤ maximum_age)
young decision_time maximum_age none h = absurd (cc h)
young decision_time maximum_age (some event) h =
    (event, refl, within (decision_time -ℤ event) maximum_age h)
  where
    within : (a b : ℤ) → ltb_ℤ b a ≡ false → a ≤ℤ b
    within a b h = ground arith

pub require_live_quote-IsCurrent :
    (decision_time maximum_age : ℤ) (active : String) (p : MarketDataProvenance)
    → require_live_quote decision_time maximum_age active p ≡ ok tt
    → IsCurrent decision_time maximum_age active p
unfolding require_live_quote
require_live_quote-IsCurrent decision_time maximum_age active p h =
    let (callback, h1) =
      >>-eq-ok (refuse_when (not p.callback_received) RefusalReason.no_data_type_callback) _ h in
    let (is, h2) =
      >>-eq-ok (refuse_when (not (is_live (liveness p))) RefusalReason.realtime_data_required) _
        h1 in
    let (mine, h3) =
      >>-eq-ok
        (refuse_when (not (str_eq p.subscription_generation active))
          RefusalReason.generation_mismatch)
        _ h2 in
    let (stamped, h4) =
      >>-eq-ok
        (refuse_when (not (is_some p.last_provider_event_at)) RefusalReason.no_provider_timestamp) _
        h3 in
    let (received, h5) =
      >>-eq-ok
        (refuse_when (not (is_some p.last_local_receive_at)) RefusalReason.no_local_timestamp) _
        h4 in
    let (event, at, fresh) =
      young decision_time maximum_age p.last_provider_event_at
        (passed _ RefusalReason.stale_quote h5) in
    record {
      live = live_of (liveness p) (passed_not _ RefusalReason.realtime_data_required is);
      generation =
          (eq_iff p.subscription_generation active).0
            (passed_not _ RefusalReason.generation_mismatch mine);
      event = event;
      event_at = at;
      fresh = fresh;
    }

some_of : {A : Type 0} (o : Option A) → is_some o ≡ true → (a : A) × (o ≡ some a)
some_of none h = absurd (cc h)
some_of (some a) h = (a, refl)

and_both : (a b : Bool) → (a && b) ≡ true → (a ≡ true) × (b ≡ true)
and_both a b h = ground arith

module _ (decision_time maximum_age : ℤ) (generations : Generations) where
  greeks_usable :
      (q : OptionQuote) (active : String)
      → active_generation generations (Key.contract q.con_id) ≡ ok active
      → IsCurrent decision_time maximum_age active q.provenance
      → is_some q.greeks ≡ true
      → has_valid_delta q.greeks ≡ true
      → is_superseded q.greeks active ≡ false
      → IsUsable decision_time maximum_age generations q
  greeks_usable q active known current present valid same =
      let (g, computed) = some_of q.greeks present in
      let (d, has_delta) = some_of g.delta (rw computed at valid) in
      record {
        active = active;
        known = known;
        current = current;
        greeks = g;
        computed = computed;
        delta = d;
        has_delta = has_delta;
        same =
            (eq_iff g.subscription_generation active).0
              (unsuperseded (str_eq g.subscription_generation active) (rw computed at same));
      }
    where
      unsuperseded : (b : Bool) → not b ≡ false → b ≡ true
      unsuperseded b h = ground arith

  legs-IsUsable :
      (legs : List OptionQuote)
      → require_live_legs decision_time maximum_age generations legs ≡ ok tt
      → all (λ q. is_some q.greeks) legs ≡ true
      → all (λ q. has_valid_delta q.greeks) legs ≡ true
      → any_stale generations legs ≡ ok false
      → All (IsUsable decision_time maximum_age generations) legs
  unfolding require_live_legs any_stale
  legs-IsUsable [] a b c d = tt
  legs-IsUsable (q ∷ legs) a b c d =
      let (active, known, a1) =
        >>=-eq-ok (active_generation generations (Key.contract q.con_id)) _ a in
      let (current, a2) =
        >>-eq-ok (require_live_quote decision_time maximum_age active q.provenance) _ a1 in
      let (b1, b2) = and_both (is_some q.greeks) (all (λ q. is_some q.greeks) legs) b in
      let (c1, c2) =
        and_both (has_valid_delta q.greeks) (all (λ q. has_valid_delta q.greeks) legs) c in
      let (active', known', d1) =
        >>=-eq-ok (active_generation generations (Key.contract q.con_id)) _ d in
      let (rest, later, d2) = >>=-eq-ok (any_stale generations legs) _ d1 in
      let one = ok-injective (sym known ∙ known') in
      let (fresh, none_later) = neither (is_superseded q.greeks active') rest (ok-injective d2) in
      (
        greeks_usable q active known
            (require_live_quote-IsCurrent decision_time maximum_age active q.provenance current) b1
            c1 (rw one fresh),
        legs-IsUsable legs a2 b2 c2 (rw (sym none_later) later),
      )
    where
      neither : (a b : Bool) → (a || b) ≡ false → (a ≡ false) × (b ≡ false)
      neither a b h = ground arith

pub uniform-IsUsable :
    (decision_time maximum_age : ℤ) (generations : Generations) (underlying : UnderlyingQuote)
    (legs : List OptionQuote)
    → require_uniform_live_provenance decision_time maximum_age generations underlying legs ≡ ok tt
    → ((active : String) × (active_generation generations Key.underlying ≡ ok active)
        × IsCurrent decision_time maximum_age active underlying.provenance)
      × All (IsUsable decision_time maximum_age generations) legs
unfolding require_uniform_live_provenance
uniform-IsUsable decision_time maximum_age generations underlying legs h =
    let (_, h1) = >>-eq-ok (refuse_when (no_quotes legs) RefusalReason.mixed_provenance) _ h in
    let (active, known, h2) = >>=-eq-ok (active_generation generations Key.underlying) _ h1 in
    let (current, h3) =
      >>-eq-ok (require_live_quote decision_time maximum_age active underlying.provenance) _ h2 in
    let (each, h4) = >>-eq-ok (require_live_legs decision_time maximum_age generations legs) _ h3 in
    let (_, h5) =
      >>-eq-ok
        (refuse_when
          (not (
            is_live (liveness underlying.provenance)
            && all (λ q. is_live (liveness q.provenance)) legs))
          RefusalReason.mixed_provenance)
        _ h4 in
    let (present, h6) =
      >>-eq-ok (refuse_when (not (all (λ q. is_some q.greeks) legs)) RefusalReason.greeks_missing) _
        h5 in
    let (valid, h7) =
      >>-eq-ok
        (refuse_when (not (all (λ q. has_valid_delta q.greeks) legs)) RefusalReason.delta_invalid) _
        h6 in
    let (stale, found, h8) = >>=-eq-ok (any_stale generations legs) _ h7 in
    let none_stale = passed stale RefusalReason.generation_mismatch h8 in
    (
      (
        active,
        known,
        require_live_quote-IsCurrent decision_time maximum_age active underlying.provenance current,
      ),
      legs-IsUsable decision_time maximum_age generations legs each
          (passed_not _ RefusalReason.greeks_missing present)
          (passed_not _ RefusalReason.delta_invalid valid) (rw (sym none_stale) found),
    )
