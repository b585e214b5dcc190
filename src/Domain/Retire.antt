-- ===== src/Domain/Retire.antt =====
-- engine/src/engine/options/domain.py: what `closing_intent` returns, and that an accepted opening
-- strategy can always be closed.
use mathlib.Core.List.{map}
use ibkr_strategy_engine.Prelude.{
  ◌≤◌, ◌<◌, ℤ, ltb, ◌≡◌, refl, ap, ap₂, sym, ◌∙◌, subst, not, ◌==◌, some, List, [], ◌∷◌, arith,
  eq_of_parts,
}
use ibkr_strategy_engine.Prelude.Result.{ok, refuse_if, >>-eq-ok, >>=-eq-ok, ok-injective}
use ibkr_strategy_engine.Domain.Legs.{
  OptionRight, OrderAction, OptionLegIntent, OptionStrategyIntent, make_leg, make_leg_same,
  inverted, invert_action,
}
use ibkr_strategy_engine.Domain.Loss.{add_legs}
use ibkr_strategy_engine.Domain.Payoff.{class_total, add_legs-classes}
use ibkr_strategy_engine.Domain.Checks.{con_ids, is_opening, make_intent-Accepted}
use ibkr_strategy_engine.Domain.Closing.{invert_all, CloseRequest, closing_intent}

-- The same contract, traded the other way.
abbrev pub flip : OptionLegIntent → OptionLegIntent
flip leg = record leg { action = invert_action leg.action }

invert_all-flip : (legs ls : List OptionLegIntent) → invert_all legs ≡ ok ls → ls ≡ map flip legs
unfolding invert_all inverted
invert_all-flip [] ls h = ground arith
invert_all-flip (leg ∷ legs) ls h =
    let (l, e, r) = >>=-eq-ok (make_leg (flip leg)) _ h in
    let (rest, e', r') = >>=-eq-ok (invert_all legs) _ r in
    sym (ok-injective r') ∙ ap₂ ◌∷◌ (make_leg_same (flip leg) l e) (invert_all-flip legs rest e')

pub con_ids-flip : (legs : List OptionLegIntent) → con_ids (map flip legs) ≡ con_ids legs
unfolding con_ids
con_ids-flip [] = refl
con_ids-flip (leg ∷ legs) = ap (◌∷◌ leg.con_id) (con_ids-flip legs)

class_total-flip :
    (r : OptionRight) (a : OrderAction) (at : ℤ) (legs : List OptionLegIntent)
    → class_total r a at (map flip legs) ≡ class_total r (invert_action a) at legs
class_total-flip r a at [] = refl
class_total-flip r a at (leg ∷ legs) = ground (arith, class_total-flip r a at legs)

-- The legs of a closing order undo, at every price, what the opening legs pay.
flat :
    (at net : ℤ) (legs : List OptionLegIntent)
    → add_legs at (add_legs at net legs) (map flip legs) ≡ net
flat at net legs = eq_of_parts _ _ (
    omega (
      arith,
      add_legs-classes at net legs,
      add_legs-classes at (add_legs at net legs) (map flip legs),
      class_total-flip OptionRight.put OrderAction.buy at legs,
      class_total-flip OptionRight.put OrderAction.sell at legs,
      class_total-flip OptionRight.call OrderAction.buy at legs,
      class_total-flip OptionRight.call OrderAction.sell at legs,
    ))

-- A closing order that is built names the strategy that it retires, holds the same contracts, is of the
-- quantity asked for, which is positive and no larger than the position, and leaves no exposure: at
-- every price its legs undo what the opening legs pay.
pub closing_intent_flat :
    (s c : OptionStrategyIntent) (r : CloseRequest)
    → closing_intent s r ≡ ok c
    → (c.closes_strategy_id ≡ some s.strategy_id)
      × (con_ids c.legs ≡ con_ids s.legs)
      × (c.quantity ≡ r.quantity)
      × (r.quantity ≤ s.quantity)
      × (0 < r.quantity)
      × ((at net : ℤ) → add_legs at (add_legs at net s.legs) c.legs ≡ net)
unfolding closing_intent
closing_intent_flat s c r h =
    let (_, a) = >>-eq-ok (refuse_if (not (is_opening s.strategy_action)) _) _ h in
    let (positive, b) = >>-eq-ok (refuse_if (r.quantity == 0) _) _ a in
    let (fits, d) = >>-eq-ok (refuse_if (ltb s.quantity r.quantity) _) _ b in
    let (ls, e, made) = >>=-eq-ok (invert_all s.legs) _ d in
    let same = (make_intent-Accepted _ c made).0 in
    let legs : map flip s.legs ≡ c.legs =
      sym (invert_all-flip s.legs ls e) ∙ ap (λ (x : OptionStrategyIntent). x.legs) same in
    let q : r.quantity ≡ c.quantity = ap (λ (x : OptionStrategyIntent). x.quantity) same in
    (
      sym (ap (λ (x : OptionStrategyIntent). x.closes_strategy_id) same),
      ap con_ids (sym legs) ∙ con_ids-flip s.legs,
      sym q,
      ground arith,
      ground arith,
      λ at net.
          subst (λ (xs : List OptionLegIntent). add_legs at (add_legs at net s.legs) xs ≡ net) legs
            (flat at net s.legs),
    )
