-- ===== src/Governor/Buckets.antt =====
-- engine/src/engine/options/policy.py and engine/src/engine/options/governor.py: the two ways in which a
-- classification is read, by the first pair of a symbol and by the members of a group, agree.
use ibkr_strategy_engine.Prelude.{
  ◌≡◌, refl, subst, inl, inr, String, Bool, true, false, str_eq, eq_iff, Option, none, some, List,
  [], ◌∷◌, any, Bool-cases, arith, ℕ,
}
use ibkr_strategy_engine.Prelude.Result.{ok}
use ibkr_strategy_engine.Governor.Policy.{Pairs, normalized, check_pairs, label_of, members}
use ibkr_strategy_engine.Governor.Portfolio.{PositionExposure, reserved_where}

-- The position or symbol with this label is in the group.
abbrev pub is_label : Option String → String → Bool
is_label none group = false
is_label (some label) group = str_eq label group

str_eq_comm : (a b : String) → str_eq a b ≡ str_eq b a
str_eq_comm a b = ground (arith, eq_iff a b, eq_iff b a)

-- A symbol seen before does not occur in the pairs that follow.
absent :
    (seen : List String) (pairs : Pairs) (group key : String)
    → check_pairs seen pairs ≡ ok tt
    → any (str_eq key) seen ≡ true
    → any (str_eq key) (members pairs group) ≡ false
unfolding check_pairs members
absent seen [] group key h known = refl
absent seen ((symbol, label) ∷ pairs) group key h known =
    elim (Bool-cases (str_eq key (normalized symbol))) [
      | inl same ↦
          let e = (eq_iff key (normalized symbol)).0 same in
          let known' = subst (λ (k : String). any (str_eq k) seen ≡ true) e known in
          absurd (ground arith)
      | inr other ↦ ground (arith, absent (normalized symbol ∷ seen) pairs group key)
    ]

-- Where no symbol is classified twice, the members of a group are the keys whose first pair has its label.
members_lem :
    (seen : List String) (pairs : Pairs) (group key : String)
    → check_pairs seen pairs ≡ ok tt
    → any (str_eq key) (members pairs group) ≡ is_label (label_of pairs key) group
unfolding check_pairs members label_of
members_lem seen [] group key h = refl
members_lem seen ((symbol, label) ∷ pairs) group key h = ground (
  arith,
  str_eq_comm key (normalized symbol),
  absent (normalized symbol ∷ seen) pairs group key,
  members_lem (normalized symbol ∷ seen) pairs group key,
)

-- What the positions of a group reserve, by their own labels.
abbrev pub reserved_by_label : Pairs → String → List PositionExposure → ℕ
reserved_by_label pairs group =
    reserved_where (λ x. is_label (label_of pairs (normalized x.underlying)) group)

pub buying_power_where-members :
    (pairs : Pairs) (group : String) (positions : List PositionExposure)
    → check_pairs [] pairs ≡ ok tt
    → reserved_where (λ x. any (str_eq (normalized x.underlying)) (members pairs group)) positions
      ≡ reserved_by_label pairs group positions
buying_power_where-members pairs group [] h = refl
buying_power_where-members pairs group (x ∷ xs) h = ground (
  arith,
  members_lem [] pairs group (normalized x.underlying) h,
  buying_power_where-members pairs group xs h,
)
