-- ===== src/Governor/Smaller.antt =====
-- engine/src/engine/options/governor.py: a candidate approved against a book is approved against a smaller one.
use ibkr_strategy_engine.Prelude.{
  ℕ, ◌≤◌, ℤ, pos, ◌+ℤ◌, +ℤ_parts, *ℤ_parts, ◌≡◌, String, Bool, true, false, not, ◌||◌, Option, none,
  some, is_some, List, [], ◌∷◌, ◌++◌, arith, any, sum_by, str_eq,
}
use ibkr_strategy_engine.Governor.Policy.{RiskPolicy, scale, normalized, label_for, members}
use ibkr_strategy_engine.Governor.Portfolio.{
  PositionExposure, PortfolioSnapshot, reserved_where, larger_of, buying_power_where,
}
use ibkr_strategy_engine.Governor.{
  MarginAssessment, required_buying_power, exceeds, check_portfolio_state, check_incremental_bpr,
  check_total_bpr, check_underlying_concentration, Grouping, group_check, check_group_concentration,
  by_sector, by_correlation, evaluate, approved, is_approved,
}
use ibkr_strategy_engine.Governor.Approval.{each_approved}

-- The account with these open positions.
abbrev pub with_positions : PortfolioSnapshot → List PositionExposure → PortfolioSnapshot
with_positions s positions = record s { positions = positions }

-- A smaller reserve keeps an amount within its cap.
exceeds_le :
    (m n : ℕ) (bpr : ℤ) (s : PortfolioSnapshot) (fraction : ℕ)
    → m ≤ n
    → exceeds (pos n +ℤ bpr) s fraction ≡ false
    → exceeds (pos m +ℤ bpr) s fraction ≡ false
exceeds_le m n bpr s fraction le h = ground (
  arith,
  +ℤ_parts (pos n) bpr,
  +ℤ_parts (pos m) bpr,
  *ℤ_parts (pos n +ℤ bpr) scale,
  *ℤ_parts (pos m +ℤ bpr) scale,
)

larger_of_le : (m n : ℕ) (reported : Option ℕ) → m ≤ n → larger_of m reported ≤ larger_of n reported
larger_of_le m n none le = le
larger_of_le m n (some r) le = ground arith

where_le :
    (p : PositionExposure → Bool) (ys : List PositionExposure) (x : PositionExposure)
    (xs : List PositionExposure)
    → reserved_where p (ys ++ xs) ≤ reserved_where p (ys ++ x ∷ xs)
where_le p [] x xs = ground arith
where_le p (y ∷ ys) x xs = ground (arith, where_le p ys x xs)

derived_le :
    (ys : List PositionExposure) (x : PositionExposure) (xs : List PositionExposure)
    → sum_by (λ y. y.buying_power_reserved) (ys ++ xs)
      ≤ sum_by (λ y. y.buying_power_reserved) (ys ++ x ∷ xs)
derived_le [] x xs = omega arith
derived_le (y ∷ ys) x xs = omega (arith, derived_le ys x xs)

any_of_fewer :
    (p : PositionExposure → Bool) (ys : List PositionExposure) (x : PositionExposure)
    (xs : List PositionExposure)
    → any p (ys ++ x ∷ xs) ≡ false
    → any p (ys ++ xs) ≡ false
any_of_fewer p [] x xs h = ground arith
any_of_fewer p (y ∷ ys) x xs h = ground (arith, any_of_fewer p ys x xs)

module _ (ys : List PositionExposure) (x : PositionExposure) (xs : List PositionExposure)
    (s : PortfolioSnapshot) where
  abbrev full : PortfolioSnapshot
  full = with_positions s (ys ++ x ∷ xs)

  abbrev fewer : PortfolioSnapshot
  fewer = with_positions s (ys ++ xs)

  state_smaller :
      (p : RiskPolicy) (now : ℤ)
      → is_approved (check_portfolio_state p (some full) now) ≡ true
      → is_approved (check_portfolio_state p (some fewer) now) ≡ true
  unfolding check_portfolio_state
  state_smaller p now h = ground (
    arith,
    any_of_fewer
        (λ y.
          not (is_some (label_for p.sectors (normalized y.underlying)))
          || not (is_some (label_for p.correlation_groups (normalized y.underlying))))
        ys x xs,
  )

  total_smaller :
      (p : RiskPolicy) (bpr : Option ℤ)
      → is_approved (check_total_bpr p bpr (some full)) ≡ true
      → is_approved (check_total_bpr p bpr (some fewer)) ≡ true
  unfolding check_total_bpr
  total_smaller p none h = h
  total_smaller p (some bpr) h =
      let le = larger_of_le _ _ s.reported_buying_power_reserved (derived_le ys x xs) in
      rw (exceeds_le _ _ bpr s p.max_total_bpr_fraction le (ground arith))

  underlying_smaller :
      (p : RiskPolicy) (u : String) (bpr : Option ℤ)
      → is_approved (check_underlying_concentration p u bpr (some full)) ≡ true
      → is_approved (check_underlying_concentration p u bpr (some fewer)) ≡ true
  unfolding check_underlying_concentration
  underlying_smaller p u none h = h
  underlying_smaller p u (some bpr) h =
      let le = where_le (λ y. str_eq (normalized y.underlying) (normalized u)) ys x xs in
      rw (exceeds_le _ _ bpr s p.max_underlying_bpr_fraction le (ground arith))

  incremental_smaller :
      (p : RiskPolicy) (bpr : Option ℤ)
      → is_approved (check_incremental_bpr p bpr (some full)) ≡ true
      → is_approved (check_incremental_bpr p bpr (some fewer)) ≡ true
  unfolding check_incremental_bpr
  incremental_smaller p none h = h
  incremental_smaller p (some bpr) h = h

  group_smaller :
      (g : Grouping) (u : String) (bpr : Option ℤ)
      → is_approved (check_group_concentration g u bpr (some full)) ≡ true
      → is_approved (check_group_concentration g u bpr (some fewer)) ≡ true
  unfolding check_group_concentration
  group_smaller g u none h = by_label (label_for g.pairs u) h
    where
      by_label :
          (l : Option String)
          → is_approved (group_check g l none full) ≡ true
          → is_approved (group_check g l none fewer) ≡ true
      by_label none h = h
      by_label (some group) h = h
  group_smaller g u (some bpr) h = by_label (label_for g.pairs u) h
    where
      by_label :
          (l : Option String)
          → is_approved (group_check g l (some bpr) full) ≡ true
          → is_approved (group_check g l (some bpr) fewer) ≡ true
      by_label none h = h
      by_label (some group) h = rw (
          exceeds_le (buying_power_where fewer (members g.pairs group))
            (buying_power_where full (members g.pairs group)) bpr s g.fraction
            (where_le (λ y. any (str_eq (normalized y.underlying)) (members g.pairs group)) ys x xs)
            (ground arith))

-- A candidate that is approved against a book is approved against the book without one of its positions:
-- an open position can only add refusals.
pub approved_smaller :
    (p : RiskPolicy) (underlying : String) (ys : List PositionExposure) (x : PositionExposure)
    (xs : List PositionExposure) (s : PortfolioSnapshot) (margin : Option MarginAssessment)
    (now : ℤ)
    → approved (evaluate p underlying (some (with_positions s (ys ++ x ∷ xs))) margin now) ≡ true
    → approved (evaluate p underlying (some (with_positions s (ys ++ xs))) margin now) ≡ true
unfolding evaluate
approved_smaller p underlying ys x xs s margin now h =
    let u = normalized underlying in
    let bpr = required_buying_power margin in
    let f = some (full ys x xs s) in
    let (state, incremental, total, concentration, sector, correlation) =
      each_approved (check_portfolio_state p f now) (check_incremental_bpr p bpr f)
        (check_total_bpr p bpr f) (check_underlying_concentration p u bpr f)
        (check_group_concentration (by_sector p) u bpr f)
        (check_group_concentration (by_correlation p) u bpr f) h in
    rw (
      state_smaller ys x xs s p now state,
      incremental_smaller ys x xs s p bpr incremental,
      total_smaller ys x xs s p bpr total,
      underlying_smaller ys x xs s p u bpr concentration,
      group_smaller ys x xs s (by_sector p) u bpr sector,
      group_smaller ys x xs s (by_correlation p) u bpr correlation,
    )
