-- ===== src/Liquidity.antt =====
-- engine/src/engine/options/liquidity.py: the liquidity gate. Amounts are in one quantum, a mid is doubled
-- where it is added or compared, and a fraction is in ten-thousandths. Detail texts are left out.
pub mod Measured
use ibkr_strategy_engine.Prelude.{
  ℕ, ◌+◌, ◌*◌, ◌==◌, ltb, leb, ℤ, pos, ◌+ℤ◌, ◌-ℤ◌, ◌*ℤ◌, ltb_ℤ, leb_ℤ, Bool, true, false, not, ◌&&◌,
  ◌||◌, Option, none, some, List, [], ◌∷◌, ◌++◌, any, length, if◌then◌else◌,
}
use ibkr_strategy_engine.Domain.Legs.{OptionLegIntent, is_sell}
use ibkr_strategy_engine.Governor.Policy.{scale}
use ibkr_strategy_engine.Quotes.{OptionQuote}

pub data LiquidityRefusalReason : Type 0 where
  one_sided spread_wide thin sparse_chain nonstandard unmeasurable : LiquidityRefusalReason

-- The thresholds of `RiskPolicy` that the gate reads.
pub record LiquidityPolicy : Type 0 where
  pub max_leg_spread_dollars : ℕ
  pub max_leg_spread_fraction : ℕ
  pub minimum_open_interest : ℕ
  pub minimum_volume : ℕ
  pub max_crossing_cost_fraction : ℕ
  pub minimum_quoted_strikes : ℕ

abbrev pub Problems : Type 0
Problems = List LiquidityRefusalReason

-- `if test: problems.append(...)`
abbrev pub note_if : Bool → LiquidityRefusalReason → Problems → Problems
note_if test reason problems = if test then reason ∷ problems else problems

abbrev pub standard_multiplier : ℕ
standard_multiplier = 100

unfoldable pub nonstandard_legs : List OptionLegIntent → Problems
nonstandard_legs [] = []
nonstandard_legs (leg ∷ legs) =
    let rest = nonstandard_legs legs in
    note_if (not (leg.multiplier == standard_multiplier)) LiquidityRefusalReason.nonstandard rest

-- `by_con_id.get(con_id)`: the last quote of a contract counts.
unfoldable pub quote_for : List OptionQuote → ℕ → Option OptionQuote
quote_for [] con_id = none
quote_for (q ∷ quotes) con_id = elim (quote_for quotes con_id) [
  | some later ↦ some later
  | none ↦ if q.con_id == con_id then some q else none
]

-- The sums over the legs, the mids doubled.
pub record Sums : Type 0 where
  pub short_mid : ℤ
  pub long_mid : ℤ
  pub short_natural : ℤ
  pub long_natural : ℤ
  pub structure_priceable : Bool

abbrev pub add_leg : OptionLegIntent → ℤ → ℤ → Sums → Sums
add_leg leg bid ask s =
    if is_sell leg.action
    then record s {
      short_mid = s.short_mid +ℤ (bid +ℤ ask) *ℤ leg.ratio;
      short_natural = s.short_natural +ℤ bid *ℤ leg.ratio;
    }
    else record s {
      long_mid = s.long_mid +ℤ (bid +ℤ ask) *ℤ leg.ratio;
      long_natural = s.long_natural +ℤ ask *ℤ leg.ratio;
    }

-- `spread_fraction is not None and spread_fraction > cap`, the mid being half of `bid + ask`.
abbrev pub is_wide : ℕ → ℤ → ℤ → Bool
is_wide cap bid ask =
    ltb_ℤ (pos 0) (bid +ℤ ask) && ltb_ℤ ((bid +ℤ ask) *ℤ cap) ((ask -ℤ bid) *ℤ (2 * scale))

abbrev pub is_below : Option ℕ → ℕ → Bool
is_below none minimum = true
is_below (some n) minimum = ltb n minimum

-- What is wrong with the market of one leg that has both sides.
abbrev pub leg_problems : LiquidityPolicy → OptionQuote → ℤ → ℤ → Problems → Problems
leg_problems p q bid ask rest =
    note_if (ltb_ℤ (pos p.max_leg_spread_dollars) (ask -ℤ bid)) LiquidityRefusalReason.spread_wide (
      note_if (is_wide p.max_leg_spread_fraction bid ask) LiquidityRefusalReason.spread_wide (
        note_if (is_below q.open_interest p.minimum_open_interest) LiquidityRefusalReason.thin
          (note_if (is_below q.volume p.minimum_volume) LiquidityRefusalReason.thin rest)))

pub record Legs : Type 0 where
  pub problems : Problems
  pub sums : Sums

abbrev pub unpriced : Legs → Legs
unpriced l = record l {
  problems = LiquidityRefusalReason.one_sided ∷ l.problems;
  sums = record l.sums { structure_priceable = false };
}

abbrev pub on_sides :
    LiquidityPolicy → OptionLegIntent → OptionQuote → Option ℤ → Option ℤ → Legs → Legs
on_sides p leg q (some bid) (some ask) l = record {
  problems = leg_problems p q bid ask l.problems;
  sums = add_leg leg bid ask l.sums;
}
on_sides p leg q _ _ l = unpriced l

abbrev pub on_quote : LiquidityPolicy → OptionLegIntent → Option OptionQuote → Legs → Legs
on_quote p leg none l = unpriced l
on_quote p leg (some q) l = on_sides p leg q q.bid q.ask l

abbrev pub no_sums : Sums
no_sums = record {
  short_mid = pos 0;
  long_mid = pos 0;
  short_natural = pos 0;
  long_natural = pos 0;
  structure_priceable = true;
}

-- The loop over the legs, from the last: neither the sums nor the reasons found depend on the order.
unfoldable pub measure_legs : LiquidityPolicy → List OptionQuote → List OptionLegIntent → Legs
unfolding quote_for
measure_legs p quotes [] = record { problems = []; sums = no_sums }
measure_legs p quotes (leg ∷ legs) =
    on_quote p leg (quote_for quotes leg.con_id) (measure_legs p quotes legs)

abbrev pub mid_credit : Sums → ℤ
mid_credit s = s.short_mid -ℤ s.long_mid

-- The doubled cost of crossing the book.
abbrev pub crossing : Sums → ℤ
crossing s = mid_credit s -ℤ (s.short_natural -ℤ s.long_natural) *ℤ 2

-- `crossing / mid_credit > cap`, of a positive mid.
abbrev pub is_dear : LiquidityPolicy → Sums → Bool
is_dear p s = ltb_ℤ (mid_credit s *ℤ p.max_crossing_cost_fraction) (crossing s *ℤ scale)

abbrev pub worth_noted : LiquidityPolicy → Sums → Problems → Problems
worth_noted p s problems =
    if leb_ℤ (mid_credit s) (pos 0)
    then LiquidityRefusalReason.unmeasurable ∷ problems
    else note_if (is_dear p s) LiquidityRefusalReason.spread_wide problems

abbrev pub crossing_problems : LiquidityPolicy → Sums → Problems → Problems
crossing_problems p s problems =
    if s.structure_priceable then worth_noted p s problems else problems

-- `quoted_window if quoted_window is not None else len(quotes.legs)`
abbrev pub window_of : Option ℕ → List OptionQuote → ℕ
window_of none quotes = length quotes
window_of (some window) quotes = window

-- `problems`
unfoldable pub find_problems :
    LiquidityPolicy → List OptionLegIntent → Option (List OptionQuote) → Option ℕ → Problems
unfolding nonstandard_legs measure_legs
find_problems p legs none quoted_window =
    nonstandard_legs legs ++ LiquidityRefusalReason.unmeasurable ∷ []
find_problems p legs (some quotes) quoted_window =
    let l = measure_legs p quotes legs in
    nonstandard_legs legs
    ++ note_if (ltb (window_of quoted_window quotes) p.minimum_quoted_strikes)
        LiquidityRefusalReason.sparse_chain (crossing_problems p l.sums l.problems)

abbrev pub same_reason : LiquidityRefusalReason → LiquidityRefusalReason → Bool
same_reason LiquidityRefusalReason.one_sided LiquidityRefusalReason.one_sided = true
same_reason LiquidityRefusalReason.spread_wide LiquidityRefusalReason.spread_wide = true
same_reason LiquidityRefusalReason.thin LiquidityRefusalReason.thin = true
same_reason LiquidityRefusalReason.sparse_chain LiquidityRefusalReason.sparse_chain = true
same_reason LiquidityRefusalReason.nonstandard LiquidityRefusalReason.nonstandard = true
same_reason LiquidityRefusalReason.unmeasurable LiquidityRefusalReason.unmeasurable = true
same_reason _ _ = false

-- `_SEVERITY`
abbrev pub severity : Problems
severity =
    LiquidityRefusalReason.nonstandard ∷ LiquidityRefusalReason.unmeasurable
    ∷ LiquidityRefusalReason.one_sided ∷ LiquidityRefusalReason.spread_wide
    ∷ LiquidityRefusalReason.thin ∷ LiquidityRefusalReason.sparse_chain ∷ []

-- `next(reason for reason in order if reason in problems)`, `none` for a `StopIteration`.
unfoldable pub lead_of : Problems → Problems → Option LiquidityRefusalReason
lead_of [] problems = none
lead_of (reason ∷ order) problems =
    let rest = lead_of order problems in
    if any (same_reason reason) problems then some reason else rest

-- `_verdict`: an approval, or the most severe reason.
unfoldable pub verdict : Problems → Option LiquidityRefusalReason
unfolding lead_of
verdict problems = lead_of severity problems

unfoldable pub check_liquidity :
    LiquidityPolicy
    → List OptionLegIntent
    → Option (List OptionQuote)
    → Option ℕ
    → Option LiquidityRefusalReason
unfolding find_problems verdict
check_liquidity p legs quotes quoted_window = verdict (find_problems p legs quotes quoted_window)
