-- ===== src/Management/Exits.antt =====
-- engine/src/engine/options/lifecycle.py: what the closing order of a position can be.
use native.Mathlib.Nat.{div-mul-le_self, mul-le-mul_right}
use ibkr_strategy_engine.Prelude.{
  if◌then◌else◌, ◌≡◌, refl, ℕ, ◌*◌, ◌/◌, ◌≤◌, ◌==◌, ltb, ℤ, Bool, true, false, not, str_eq, eq_iff,
  Option, none, some, arith, inl, inr, Bool-cases,
}
use ibkr_strategy_engine.Prelude.Result.{Result, ok, err, >>-eq-ok, refuse_if}
use ibkr_strategy_engine.Domain.Legs.{Refusal, OptionStrategyIntent}
use ibkr_strategy_engine.Domain.Checks.{con_ids}
use ibkr_strategy_engine.Domain.Loss.{add_legs}
use ibkr_strategy_engine.Domain.Retire.{closing_intent_flat}
use ibkr_strategy_engine.Domain.Closing.{CloseRequest}
use ibkr_strategy_engine.Governor.Policy.{scale}
use ibkr_strategy_engine.Management.{
  is_manageable, OpenPosition, ManagementDecision, manageable_quantity, acts, CloseError, price_or,
  from_strategy, close_at, closing_intent_for,
}

-- A number of contracts that may be managed was filled, where a fill is recorded.
held_of :
    (p : OpenPosition) (n : ℕ)
    → n ≤ manageable_quantity p
    → n * scale ≤ (if ltb 0 p.filled_quantity then p.filled_quantity else p.intent.quantity * scale)
held_of p n h = elim (Bool-cases (ltb 0 p.filled_quantity)) [
  | inl filled ↦
      let le : n ≤ p.filled_quantity / scale = rw filled at h in
      rw filled (omega (arith, mul-le-mul_right scale le, div-mul-le_self p.filled_quantity scale))
  | inr unfilled ↦
      let le : n ≤ p.intent.quantity = rw unfilled at h in rw unfilled (mul-le-mul_right scale le)
]

-- What a closing order of a position is: that of a decision that acts on this position, which is open, for
-- no more contracts than were filled, or ordered where no fill is recorded, on the contracts that it holds, with the opposite payoff, at the price
-- that was given or at the target.
pub record IsExit (d : ManagementDecision) (p : OpenPosition) (r : CloseRequest)
    (limit_price : Option ℤ) (t : OptionStrategyIntent) : Type 0 where
  pub acted : acts d ≡ true
  pub own : d.position_id ≡ p.strategy_id
  pub managed : is_manageable p.state ≡ true
  pub held :
      t.quantity * scale
      ≤ (if ltb 0 p.filled_quantity then p.filled_quantity else p.intent.quantity * scale)
  pub closes : t.closes_strategy_id ≡ some p.intent.strategy_id
  pub contracts : con_ids t.legs ≡ con_ids p.intent.legs
  pub flat : (at net : ℤ) → add_legs at (add_legs at net p.intent.legs) t.legs ≡ net
  pub price : ℤ
  pub priced : price_or limit_price d.target_debit ≡ some price

-- Every closing order that is built for a decision is an exit of the position: in particular, where a fill is
-- recorded it is never for more contracts than were filled, and else never for more than were ordered.
pub closing_intent_for-IsExit :
    (d : ManagementDecision) (p : OpenPosition) (r : CloseRequest) (limit_price : Option ℤ)
    (t : OptionStrategyIntent)
    → closing_intent_for d p r limit_price ≡ ok t
    → IsExit d p r limit_price t
unfolding closing_intent_for
closing_intent_for-IsExit d p r limit_price t h =
    let (active, a) = >>-eq-ok (refuse_if (not (acts d)) CloseError.no_order) _ h in
    let (own, b) = >>-eq-ok (refuse_if (not (str_eq d.position_id p.strategy_id)) _) _ a in
    let (managed, c) = >>-eq-ok (refuse_if (not (is_manageable p.state)) _) _ b in
    let (_, e) = >>-eq-ok (refuse_if (r.quantity == 0) _) _ c in
    let (held, f) = >>-eq-ok (refuse_if (ltb (manageable_quantity p) r.quantity) _) _ e in
    at_price (price_or limit_price d.target_debit) refl (passed _ (acts d) active)
      ((eq_iff d.position_id p.strategy_id).0 (passed _ (str_eq d.position_id p.strategy_id) own))
      (passed _ (is_manageable p.state) managed) (ground arith) f
  where
    passed : (cause : CloseError) (b : Bool) → refuse_if (not b) cause ≡ ok tt → b ≡ true
    passed cause true h = refl
    passed cause false h = absurd (ground arith)

    built : {x : Result Refusal OptionStrategyIntent} → from_strategy x ≡ ok t → x ≡ ok t
    built {x} h =
        elim x as (λ y. from_strategy y ≡ ok t → y ≡ ok t) [
          | err e ↦ λ k. absurd (ground arith)
          | ok u ↦ λ k. cc
        ]
          h

    at_price :
        (o : Option ℤ)
        → price_or limit_price d.target_debit ≡ o
        → acts d ≡ true
        → d.position_id ≡ p.strategy_id
        → is_manageable p.state ≡ true
        → r.quantity ≤ manageable_quantity p
        → close_at p r o ≡ ok t
        → IsExit d p r limit_price t
    at_price none e acted own managed held h = absurd (ground arith)
    at_price (some price) e acted own managed held h =
        let (closes, contracts, same, _, _, flat) =
          closing_intent_flat p.intent t (record r { limit_price = price }) (built h) in
        record {
          acted = acted;
          own = own;
          managed = managed;
          held = held_of p t.quantity (omega (arith, same, held));
          closes = closes;
          contracts = contracts;
          flat = flat;
          price = price;
          priced = e;
        }
