-- ===== src/Governor/Policy.antt =====
-- engine/src/engine/options/policy.py: the portfolio caps and the classification of symbols.
-- A fraction is a natural number of ten-thousandths. The tuple tests are the types of the fields.
use ibkr_strategy_engine.Prelude.{
  ℕ, String, str_eq, Option, none, some, List, [], ◌∷◌, any, is_empty, strip, upper, if◌then◌else◌,
}
use ibkr_strategy_engine.Prelude.Result.{Result, ok, ◌>>◌, refuse_if}

pub data PolicyError : Type 0 where
  empty_symbol empty_label repeated_symbol : PolicyError

abbrev pub Pairs : Type 0
Pairs = List (String × String)

pub record RiskPolicy : Type 0 where
  pub max_total_bpr_fraction : ℕ
  pub max_incremental_bpr_fraction : ℕ
  pub max_underlying_bpr_fraction : ℕ
  pub max_sector_bpr_fraction : ℕ
  pub max_correlation_group_bpr_fraction : ℕ
  pub portfolio_snapshot_maximum_age : ℕ
  pub sectors : Pairs
  pub correlation_groups : Pairs

-- The unit of the fractions.
abbrev pub scale : ℕ
scale = 10_000

-- `symbol.strip().upper()`
unfoldable pub normalized : String → String
normalized symbol = upper (strip symbol)

-- `_check_pairs`, with the symbols seen so far.
unfoldable pub check_pairs : List String → Pairs → Result PolicyError Unit
check_pairs seen [] = ok tt
check_pairs seen ((symbol, label) ∷ pairs) = do
  refuse_if (is_empty (strip symbol)) PolicyError.empty_symbol
  refuse_if (is_empty (strip label)) PolicyError.empty_label
  refuse_if (any (str_eq (normalized symbol)) seen) PolicyError.repeated_symbol
  check_pairs (normalized symbol ∷ seen) pairs

-- The label of the first pair whose symbol has the given key.
unfoldable pub label_of : Pairs → String → Option String
label_of [] key = none
label_of ((candidate, label) ∷ pairs) key =
    let rest = label_of pairs key in if str_eq (normalized candidate) key then some label else rest

-- `sector_for` and `correlation_group_for`
abbrev pub label_for : Pairs → String → Option String
label_for pairs symbol = label_of pairs (normalized symbol)

-- `members`: the keys that the pairs classify as `group`.
unfoldable pub members : Pairs → String → List String
members [] group = []
members ((symbol, classification) ∷ pairs) group =
    let rest = members pairs group in
    if str_eq classification group then normalized symbol ∷ rest else rest
