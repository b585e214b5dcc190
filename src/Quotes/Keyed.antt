-- ===== src/Quotes/Keyed.antt =====
-- engine/src/engine/options/marketdata.py and ports.py: the gate on a snapshot that construction accepted.
use ibkr_strategy_engine.Prelude.{
  ◌==◌, ℤ, String, str_eq, Bool, true, false, not, ◌&&◌, is_some, List, [], ◌∷◌, all, any, select,
  ◌≡◌, refl, arith, Bool-cases, inl, inr, if◌then◌else◌,
}
use ibkr_strategy_engine.Prelude.Result.{Result, ok, err, ◌>>=◌, ◌>>◌, refuse_if, >>-eq-ok}
use ibkr_strategy_engine.Domain.Legs.{OptionLegIntent}
use ibkr_strategy_engine.Quotes.{
  MarketDataProvenance, liveness, is_live, OptionQuote, Key, same_key, Generations,
  StrategyQuoteSnapshot, RefusalReason, no_quotes, distinct_keys, has_key, make_snapshot,
}
use ibkr_strategy_engine.Quotes.Gate.{
  GateError, refuse_when, is_old, require_live_quote, active_generation, require_live_legs,
  has_valid_delta, any_stale, require_uniform_live_provenance, execution_entitlement_set,
}

-- A call that gives a value or a refusal, and no `KeyError`.
abbrev pub IsKeyed : {A : Type 0} → Result GateError A → Type 0
IsKeyed (ok value) = Unit
IsKeyed (err (GateError.refused reason)) = Unit
IsKeyed (err GateError.key_error) = ⊥

IsKeyed-bind :
    {A B : Type 0} (m : Result GateError A) (f : A → Result GateError B)
    → IsKeyed m
    → ((a : A) → IsKeyed (f a))
    → IsKeyed (m >>= f)
IsKeyed-bind (ok a) f h k = k a
IsKeyed-bind (err (GateError.refused reason)) f h k = tt
IsKeyed-bind (err GateError.key_error) f h k = h

refuse-IsKeyed : (b : Bool) (reason : RefusalReason) → IsKeyed (refuse_when b reason)
refuse-IsKeyed true reason = tt
refuse-IsKeyed false reason = tt

then-IsKeyed :
    {B : Type 0} (b : Bool) (reason : RefusalReason) (rest : Result GateError B)
    → IsKeyed rest
    → IsKeyed (refuse_when b reason >> rest)
then-IsKeyed true reason rest h = tt
then-IsKeyed false reason rest h = h

active-IsKeyed :
    (generations : Generations) (key : Key)
    → has_key generations key ≡ true
    → IsKeyed (active_generation generations key)
unfolding active_generation
active-IsKeyed [] key h = absurd (cc h)
active-IsKeyed ((known, generation) ∷ generations) key h = elim (Bool-cases (same_key key known)) [
  | inl e ↦ rw e tt
  | inr e ↦ rw e (active-IsKeyed generations key (rw e at h))
]

quote-IsKeyed :
    (decision_time maximum_age : ℤ) (active : String) (p : MarketDataProvenance)
    → IsKeyed (require_live_quote decision_time maximum_age active p)
unfolding require_live_quote
quote-IsKeyed decision_time maximum_age active p =
    then-IsKeyed (not p.callback_received) RefusalReason.no_data_type_callback _ (
      then-IsKeyed (not (is_live (liveness p))) RefusalReason.realtime_data_required _ (
        then-IsKeyed (not (str_eq p.subscription_generation active))
          RefusalReason.generation_mismatch _
          (then-IsKeyed (not (is_some p.last_provider_event_at)) RefusalReason.no_provider_timestamp
            _
            (then-IsKeyed (not (is_some p.last_local_receive_at)) RefusalReason.no_local_timestamp _
              (refuse-IsKeyed (is_old decision_time maximum_age p.last_provider_event_at)
                RefusalReason.stale_quote)))))

-- Every leg has its generation.
abbrev all_keyed : Generations → List OptionQuote → Bool
all_keyed generations legs = all (λ q. has_key generations (Key.contract q.con_id)) legs

both_true : (a b : Bool) → (a && b) ≡ true → (a ≡ true) × (b ≡ true)
both_true a b h = ground arith

legs-IsKeyed :
    (decision_time maximum_age : ℤ) (generations : Generations) (legs : List OptionQuote)
    → all_keyed generations legs ≡ true
    → IsKeyed (require_live_legs decision_time maximum_age generations legs)
unfolding require_live_legs
legs-IsKeyed decision_time maximum_age generations [] h = tt
legs-IsKeyed decision_time maximum_age generations (q ∷ legs) h =
    let (one, rest) =
      both_true (has_key generations (Key.contract q.con_id)) (all_keyed generations legs) h in
    IsKeyed-bind (active_generation generations (Key.contract q.con_id)) _
      (active-IsKeyed generations (Key.contract q.con_id) one)
      λ active.
        IsKeyed-bind (require_live_quote decision_time maximum_age active q.provenance) _
          (quote-IsKeyed decision_time maximum_age active q.provenance)
          λ u. legs-IsKeyed decision_time maximum_age generations legs rest

stale-IsKeyed :
    (generations : Generations) (legs : List OptionQuote)
    → all_keyed generations legs ≡ true
    → IsKeyed (any_stale generations legs)
unfolding any_stale
stale-IsKeyed generations [] h = tt
stale-IsKeyed generations (q ∷ legs) h =
    let (one, rest) =
      both_true (has_key generations (Key.contract q.con_id)) (all_keyed generations legs) h in
    IsKeyed-bind (active_generation generations (Key.contract q.con_id)) _
      (active-IsKeyed generations (Key.contract q.con_id) one)
      λ active.
        IsKeyed-bind (any_stale generations legs) _ (stale-IsKeyed generations legs rest) λ b. tt

all-select :
    (p f : OptionQuote → Bool) (legs : List OptionQuote)
    → all p legs ≡ true
    → all p (select f legs) ≡ true
all-select p f [] h = refl
all-select p f (q ∷ legs) h =
    let (one, rest) = both_true (p q) (all p legs) h in
    kept p (f q) q (select f legs) one (all-select p f legs rest)
  where
    kept :
        (p : OptionQuote → Bool) (b : Bool) (q : OptionQuote) (xs : List OptionQuote)
        → p q ≡ true
        → all p xs ≡ true
        → all p (if b then q ∷ xs else xs) ≡ true
    kept p true q xs one rest = rw (one, rest) refl
    kept p false q xs one rest = rest

-- On a snapshot that construction returned, the gate on the quotes of a strategy passes or refuses with a
-- reason: it never asks for a generation that is not recorded.
pub require_uniform-IsKeyed :
    (s made : StrategyQuoteSnapshot) (legs : List OptionLegIntent) (decision_time maximum_age : ℤ)
    → make_snapshot s ≡ ok made
    → IsKeyed (
        require_uniform_live_provenance decision_time maximum_age s.generations s.underlying
          (execution_entitlement_set s.legs legs))
unfolding make_snapshot require_uniform_live_provenance
require_uniform-IsKeyed s made legs decision_time maximum_age h =
    let chosen = execution_entitlement_set s.legs legs in
    let (_, h1) = >>-eq-ok (refuse_if (no_quotes s.legs) RefusalReason.mixed_provenance) _ h in
    let (_, h2) =
      >>-eq-ok (refuse_if (not (distinct_keys s.generations)) RefusalReason.generation_mismatch) _
        h1 in
    let (keyed, _) =
      >>-eq-ok
        (refuse_if (not (has_key s.generations Key.underlying && all_keyed s.generations s.legs))
          RefusalReason.generation_mismatch)
        _ h2 in
    let (first, rest) =
      both_true (has_key s.generations Key.underlying) (all_keyed s.generations s.legs)
        (unrefused _ keyed) in
    let each =
      all-select (λ q. has_key s.generations (Key.contract q.con_id))
        (λ q. any (λ leg. q.con_id == leg.con_id) legs) s.legs rest in
    then-IsKeyed (no_quotes chosen) RefusalReason.mixed_provenance _ (
      IsKeyed-bind (active_generation s.generations Key.underlying) _
        (active-IsKeyed s.generations Key.underlying first)
        λ active.
          IsKeyed-bind (require_live_quote decision_time maximum_age active s.underlying.provenance)
            _ (quote-IsKeyed decision_time maximum_age active s.underlying.provenance)
            λ u.
              IsKeyed-bind (require_live_legs decision_time maximum_age s.generations chosen) _
                (legs-IsKeyed decision_time maximum_age s.generations chosen each)
                λ v.
                  then-IsKeyed
                    (not (
                      is_live (liveness s.underlying.provenance)
                      && all (λ q. is_live (liveness q.provenance)) chosen))
                    RefusalReason.mixed_provenance _
                    (then-IsKeyed (not (all (λ q. is_some q.greeks) chosen))
                      RefusalReason.greeks_missing _
                      (then-IsKeyed (not (all (λ q. has_valid_delta q.greeks) chosen))
                        RefusalReason.delta_invalid _
                        (IsKeyed-bind (any_stale s.generations chosen) _
                          (stale-IsKeyed s.generations chosen each)
                          λ stale. refuse-IsKeyed stale RefusalReason.generation_mismatch))))
  where
    unrefused : (b : Bool) → refuse_if (not b) RefusalReason.generation_mismatch ≡ ok tt → b ≡ true
    unrefused b h = ground arith
