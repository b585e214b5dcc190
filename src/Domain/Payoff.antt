-- ===== src/Domain/Payoff.antt =====
-- engine/src/engine/options/risk.py: the payoff at expiry, by the class of its legs (a right and an
-- action), which does not depend on the order of the legs.
use ibkr_strategy_engine.Prelude.{
  ℕ, ◌+◌, ℤ, pos, negsuc, pos_part, neg_part, ◌-ℤ◌, ◌*ℤ◌, max_ℤ, ◌≡◌, refl, sym, subst, Bool, true,
  ◌&&◌, ◌==◌, some, List, [], ◌∷◌, select, all, sum_by, arith, +ℤ_parts, -ℤ_parts,
}
use ibkr_strategy_engine.Domain.Legs.{
  OptionRight, OrderAction, OptionLegIntent, same_right, same_action, sole, sole_of, is_put,
  is_call,
}
use ibkr_strategy_engine.Domain.Loss.{intrinsic_by, signed_by, add_legs}

abbrev pub in_class : OptionRight → OrderAction → OptionLegIntent → Bool
in_class right action leg = same_right right leg.right && same_action action leg.action

-- What the legs of one class are worth at expiry.
abbrev pub class_total : OptionRight → OrderAction → ℤ → List OptionLegIntent → ℕ
class_total right action at legs =
    sum_by (λ leg. pos_part (intrinsic_by right leg.strike at *ℤ leg.ratio))
      (select (in_class right action) legs)

max-zero_nonneg : (x : ℤ) → neg_part (max_ℤ (pos 0) x) ≡ 0
max-zero_nonneg x = ground arith

mul_nonneg : (x : ℤ) (n : ℕ) → neg_part x ≡ 0 → neg_part (x *ℤ n) ≡ 0
unfolding ◌*ℤ◌
mul_nonneg (pos x) n h = ground arith
mul_nonneg (negsuc x) n h = ground arith

intrinsic_nonneg : (r : OptionRight) (k at : ℤ) (n : ℕ) → neg_part (intrinsic_by r k at *ℤ n) ≡ 0
intrinsic_nonneg OptionRight.put k at n = mul_nonneg _ n (max-zero_nonneg (k -ℤ at))
intrinsic_nonneg OptionRight.call k at n = mul_nonneg _ n (max-zero_nonneg (at -ℤ k))

-- The payoff is the starting credit, plus the long classes, less the short ones.
pub add_legs-classes :
    (at net : ℤ) (legs : List OptionLegIntent)
    → pos_part (add_legs at net legs)
        + neg_part net
        + class_total OptionRight.put OrderAction.sell at legs
        + class_total OptionRight.call OrderAction.sell at legs
      ≡ neg_part (add_legs at net legs)
        + pos_part net
        + class_total OptionRight.put OrderAction.buy at legs
        + class_total OptionRight.call OrderAction.buy at legs
unfolding add_legs
add_legs-classes at net [] = omega arith
add_legs-classes at net (leg ∷ legs) =
    let c = intrinsic_by leg.right leg.strike at *ℤ leg.ratio in
    ground (
      arith,
      add_legs-classes at (signed_by leg.action net c) legs,
      intrinsic_nonneg leg.right leg.strike at leg.ratio,
      +ℤ_parts net c,
      -ℤ_parts net c,
    )

abbrev pub is_unit_ratio : OptionLegIntent → Bool
is_unit_ratio leg = leg.ratio == 1

all-select :
    (p q : OptionLegIntent → Bool) (legs : List OptionLegIntent)
    → all q legs ≡ true
    → all q (select p legs) ≡ true
all-select p q [] h = refl
all-select p q (leg ∷ legs) h = ground (arith, all-select p q legs)

sole_of-eq_some :
    (legs : List OptionLegIntent) (l : OptionLegIntent) → sole_of legs ≡ some l → legs ≡ l ∷ []
sole_of-eq_some [] l h = ground arith
sole_of-eq_some (leg ∷ []) l h = ground arith
sole_of-eq_some (leg ∷ other ∷ legs) l h = ground arith

mul_one : (x : ℤ) (n : ℕ) → n ≡ 1 → neg_part x ≡ 0 → pos_part (x *ℤ n) ≡ pos_part x
unfolding ◌*ℤ◌
mul_one (pos x) n h p = subst (λ (m : ℕ). pos_part (pos x *ℤ m) ≡ x) (sym h) (ground arith)
mul_one (negsuc x) n h p = ground arith

intrinsic_value_nonneg : (r : OptionRight) (k at : ℤ) → neg_part (intrinsic_by r k at) ≡ 0
intrinsic_value_nonneg OptionRight.put k at = max-zero_nonneg (k -ℤ at)
intrinsic_value_nonneg OptionRight.call k at = max-zero_nonneg (at -ℤ k)

abbrev worth : OptionRight → ℤ → OptionLegIntent → ℕ
worth r at leg = pos_part (intrinsic_by r leg.strike at *ℤ leg.ratio)

sum-worth :
    (r : OptionRight) (at : ℤ) (l : OptionLegIntent)
    → all is_unit_ratio (l ∷ []) ≡ true
    → sum_by (worth r at) (l ∷ []) ≡ pos_part (intrinsic_by r l.strike at)
sum-worth r at l u = omega (
  arith,
  mul_one (intrinsic_by r l.strike at) l.ratio (ground arith)
      (intrinsic_value_nonneg r l.strike at),
)

-- A class with one leg, among legs of ratio one, is worth that leg's intrinsic value.
pub class_total-sole :
    (right : OptionRight) (action : OrderAction) (at : ℤ) (legs : List OptionLegIntent)
    (l : OptionLegIntent)
    → sole legs right action ≡ some l
    → all is_unit_ratio legs ≡ true
    → class_total right action at legs ≡ pos_part (intrinsic_by right l.strike at)
unfolding sole
class_total-sole right action at legs l found unit =
    let e = sole_of-eq_some (select (in_class right action) legs) l found in
    let u = all-select (in_class right action) is_unit_ratio legs unit in
    subst
      (λ (xs : List OptionLegIntent).
        all is_unit_ratio xs ≡ true
        → sum_by (worth right at) xs ≡ pos_part (intrinsic_by right l.strike at))
      (sym e) (sum-worth right at l) u

-- Legs all of one right leave the classes of the other empty.
pub class_total-other :
    (action : OrderAction) (at : ℤ) (legs : List OptionLegIntent)
    → (all (λ leg. is_put leg.right) legs ≡ true → class_total OptionRight.call action at legs ≡ 0)
      × (all (λ leg. is_call leg.right) legs ≡ true
          → class_total OptionRight.put action at legs ≡ 0)
class_total-other action at [] = (λ _. refl, λ _. refl)
class_total-other action at (leg ∷ legs) = (
  ground (arith, class_total-other action at legs),
  ground (arith, class_total-other action at legs),
)
