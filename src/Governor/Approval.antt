-- ===== src/Governor/Approval.antt =====
-- engine/src/engine/options/governor.py: what an approval guarantees of the book, and what is never approved.
use ibkr_strategy_engine.Prelude.{
  ℕ, ◌*◌, ℤ, pos, ◌≤ℤ◌, ◌+ℤ◌, ◌*ℤ◌, ◌≡◌, refl, subst, ◌⊎◌, inl, inr, String, Bool, true, false,
  ◌&&◌, Option, none, some, is_some, List, [], ◌∷◌, All, arith, not, ◌||◌, any, if◌then◌else◌,
}
use ibkr_strategy_engine.Prelude.Result.{ok}
use ibkr_strategy_engine.Governor.Policy.{
  RiskPolicy, Pairs, scale, normalized, label_for, check_pairs,
}
use ibkr_strategy_engine.Governor.Portfolio.{
  PositionExposure, PortfolioSnapshot, total_buying_power_reserved, buying_power_for_underlying,
  age_at,
}
use ibkr_strategy_engine.Governor.Buckets.{reserved_by_label, buying_power_where-members}
use ibkr_strategy_engine.Governor.{
  MarginAssessment, larger_change, required_buying_power, unclassified, check_portfolio_state,
  check_incremental_bpr, check_total_bpr, check_underlying_concentration, Grouping, group_check,
  check_group_concentration, by_sector, by_correlation, evaluate, approved, CheckResult,
  is_approved,
}

-- An amount is within a fraction of the account.
abbrev IsWithin : ℤ → PortfolioSnapshot → ℕ → Type 0
IsWithin amount s fraction = amount *ℤ scale ≤ℤ pos (s.net_liquidation * fraction)

-- The candidate's group, and what it reserves with the new position.
pub record IsGroupWithin (pairs : Pairs) (fraction : ℕ) (underlying : String)
    (s : PortfolioSnapshot) (bpr : ℤ) : Type 0 where
  pub group : String
  pub labelled : label_for pairs underlying ≡ some group
  pub within : IsWithin (pos (reserved_by_label pairs group s.positions) +ℤ bpr) s fraction

abbrev IsClassified : RiskPolicy → PositionExposure → Type 0
IsClassified p x =
    (is_some (label_for p.sectors (normalized x.underlying)) ≡ true)
    × (is_some (label_for p.correlation_groups (normalized x.underlying)) ≡ true)

-- The book with the candidate in it, which reserves `bpr`.
pub record IsBounded (p : RiskPolicy) (underlying : String) (s : PortfolioSnapshot) (bpr now : ℤ)
    : Type 0 where
  pub fresh : age_at s now ≤ℤ pos p.portfolio_snapshot_maximum_age
  pub classified : All (IsClassified p) s.positions
  pub incremental : IsWithin bpr s p.max_incremental_bpr_fraction
  pub total : IsWithin (pos (total_buying_power_reserved s) +ℤ bpr) s p.max_total_bpr_fraction
  pub concentration :
      IsWithin
        (pos (buying_power_for_underlying s underlying) +ℤ bpr)
        s
        p.max_underlying_bpr_fraction
  pub sector : IsGroupWithin p.sectors p.max_sector_bpr_fraction underlying s bpr
  pub correlation :
      IsGroupWithin p.correlation_groups p.max_correlation_group_bpr_fraction underlying s bpr

All-IsClassified :
    (p : RiskPolicy) (s : PortfolioSnapshot)
    → unclassified p s ≡ false
    → All (IsClassified p) s.positions
All-IsClassified p s h = over s.positions h
  where
    over :
        (xs : List PositionExposure)
        → any
            (λ x.
              not (is_some (label_for p.sectors (normalized x.underlying)))
              || not (is_some (label_for p.correlation_groups (normalized x.underlying))))
            xs
          ≡ false
        → All (IsClassified p) xs
    over [] h = tt
    over (x ∷ xs) h = ((ground arith, ground arith), over xs (ground arith))

state_approved :
    (p : RiskPolicy) (s : PortfolioSnapshot) (now : ℤ)
    → is_approved (check_portfolio_state p (some s) now) ≡ true
    → (age_at s now ≤ℤ pos p.portfolio_snapshot_maximum_age) × All (IsClassified p) s.positions
unfolding check_portfolio_state
state_approved p s now h = (ground arith, All-IsClassified p s (ground arith))

group_approved :
    (g : Grouping) (underlying : String) (bpr : ℤ) (s : PortfolioSnapshot)
    → check_pairs [] g.pairs ≡ ok tt
    → is_approved (check_group_concentration g underlying (some bpr) (some s)) ≡ true
    → IsGroupWithin g.pairs g.fraction underlying s bpr
unfolding check_group_concentration
group_approved g underlying bpr s valid h = by_label (label_for g.pairs underlying) refl h
  where
    by_label :
        (l : Option String)
        → label_for g.pairs underlying ≡ l
        → is_approved (group_check g l (some bpr) s) ≡ true
        → IsGroupWithin g.pairs g.fraction underlying s bpr
    by_label none e h = absurd (ground arith)
    by_label (some group) e h = record {
      group = group;
      labelled = e;
      within =
          subst (λ (n : ℕ). IsWithin (pos n +ℤ bpr) s g.fraction)
            (buying_power_where-members g.pairs group s.positions valid) (ground arith);
    }

pub each_approved :
    (a b c d e f : CheckResult)
    → approved (a ∷ b ∷ c ∷ d ∷ e ∷ f ∷ []) ≡ true
    → (is_approved a ≡ true)
      × (is_approved b ≡ true)
      × (is_approved c ≡ true)
      × (is_approved d ≡ true)
      × (is_approved e ≡ true)
      × (is_approved f ≡ true)
each_approved a b c d e f h =
    (ground arith, ground arith, ground arith, ground arith, ground arith, ground arith)

-- A candidate whose margin change is known, and that is approved, against a book and under a policy that
-- classifies no symbol twice, leaves every cap respected: the book is fresh and wholly classified, and
-- with the new reserve in it, the reserve itself, the total, the underlying, the sector and the
-- correlation group are each within their fraction of net liquidation.
pub approved-IsBounded :
    (p : RiskPolicy) (underlying : String) (s : PortfolioSnapshot)
    (margin : Option MarginAssessment) (now bpr : ℤ)
    → check_pairs [] p.sectors ≡ ok tt
    → check_pairs [] p.correlation_groups ≡ ok tt
    → required_buying_power margin ≡ some bpr
    → approved (evaluate p underlying (some s) margin now) ≡ true
    → IsBounded p (normalized underlying) s bpr now
unfolding evaluate check_incremental_bpr check_total_bpr check_underlying_concentration
approved-IsBounded p underlying s margin now bpr sectors groups known h =
    let u = normalized underlying in
    let (state, incremental, total, concentration, sector, correlation) =
      each_approved (check_portfolio_state p (some s) now)
        (check_incremental_bpr p (some bpr) (some s)) (check_total_bpr p (some bpr) (some s))
        (check_underlying_concentration p u (some bpr) (some s))
        (check_group_concentration (by_sector p) u (some bpr) (some s))
        (check_group_concentration (by_correlation p) u (some bpr) (some s)) (rw known at h) in
    let (fresh, classified) = state_approved p s now state in
    record {
      fresh = fresh;
      classified = classified;
      incremental = ground arith;
      total = ground arith;
      concentration = ground arith;
      sector = group_approved (by_sector p) u bpr s sectors sector;
      correlation = group_approved (by_correlation p) u bpr s groups correlation;
    }

-- The broker's what-if was not asked or not accepted, or leaves out one of its two changes.
abbrev pub IsMissing : Option MarginAssessment → Type 0
IsMissing margin =
    (margin ≡ none)
    ⊎ ((m : MarginAssessment) × (margin ≡ some m)
        × ((m.accepted ≡ false)
            ⊎ (m.initial_margin_change ≡ none)
            ⊎ (m.maintenance_margin_change ≡ none)))

missing_unknown :
    (margin : Option MarginAssessment) → IsMissing margin → required_buying_power margin ≡ none
unfolding required_buying_power
missing_unknown margin (inl e) = rw e refl
missing_unknown margin (inr (m, e, why)) = rw e (by_cause why)
  where
    no_change :
        (b : Bool) (initial maintenance : Option ℤ)
        → (initial ≡ none) ⊎ (maintenance ≡ none)
        → (if b then larger_change initial maintenance else none) ≡ none
    no_change false initial maintenance h = refl
    no_change true none maintenance h = refl
    no_change true (some x) none h = refl
    no_change true (some x) (some y) h = absurd (ground arith)

    by_cause :
        ((m.accepted ≡ false)
          ⊎ (m.initial_margin_change ≡ none)
          ⊎ (m.maintenance_margin_change ≡ none))
        → required_buying_power (some m) ≡ none
    by_cause (inl refused) = rw refused refl
    by_cause (inr gone) =
        no_change m.accepted m.initial_margin_change m.maintenance_margin_change gone

-- Without a snapshot of the book, or where the broker's what-if was not asked, was not accepted, or leaves out
-- the change of the initial or of the maintenance margin, nothing is approved.
pub evaluate_fails_closed :
    (p : RiskPolicy) (underlying : String) (snapshot : Option PortfolioSnapshot)
    (margin : Option MarginAssessment) (now : ℤ)
    → (snapshot ≡ none) ⊎ IsMissing margin
    → approved (evaluate p underlying snapshot margin now) ≡ false
unfolding evaluate check_portfolio_state check_incremental_bpr
evaluate_fails_closed p underlying none margin now h = refl
evaluate_fails_closed p underlying (some s) margin now (inl h) = cc
evaluate_fails_closed p underlying (some s) margin now (inr h) =
    rw (missing_unknown margin h) (both (is_approved (check_portfolio_state p (some s) now)))
  where
    both : (b : Bool) → (b && false) ≡ false
    both true = refl
    both false = refl
