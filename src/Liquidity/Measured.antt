-- ===== src/Liquidity/Measured.antt =====
-- engine/src/engine/options/liquidity.py: what the gate has established of the legs that pass it.
use ibkr_strategy_engine.Prelude.{
  ℕ, ◌==◌, ◌≤◌, ltb, ℤ, pos, ◌-ℤ◌, ◌≤ℤ◌, ◌<ℤ◌, ltb_ℤ, leb_ℤ, ◌*ℤ◌, Bool, true, false, not, Option,
  none, some, List, [], ◌∷◌, ◌++◌, any, All, ◌≡◌, refl, subst, inl, inr, Bool-cases, arith,
  if◌then◌else◌,
}
use ibkr_strategy_engine.Domain.Legs.{OptionLegIntent, is_sell}
use ibkr_strategy_engine.Governor.Policy.{scale}
use ibkr_strategy_engine.Quotes.{OptionQuote}
use ibkr_strategy_engine.Liquidity.{
  LiquidityRefusalReason, LiquidityPolicy, Problems, note_if, standard_multiplier, nonstandard_legs,
  quote_for, is_wide, is_below, Legs, Sums, on_sides, on_quote, measure_legs, mid_credit, crossing,
  is_dear, worth_noted, crossing_problems, window_of, find_problems, same_reason, severity, lead_of,
  verdict, check_liquidity,
}

-- A standard contract with a market of two sides, neither wider nor thinner than the policy allows.
pub record IsMeasured (p : LiquidityPolicy) (quotes : List OptionQuote) (leg : OptionLegIntent)
    : Type 0 where
  pub standard : leg.multiplier ≡ 100
  pub q : OptionQuote
  pub quoted : quote_for quotes leg.con_id ≡ some q
  pub bid : ℤ
  pub ask : ℤ
  pub has_bid : q.bid ≡ some bid
  pub has_ask : q.ask ≡ some ask
  pub narrow : ask -ℤ bid ≤ℤ pos p.max_leg_spread_dollars
  pub tight : is_wide p.max_leg_spread_fraction bid ask ≡ false
  pub open_interest : ℕ
  pub has_interest : q.open_interest ≡ some open_interest
  pub deep : p.minimum_open_interest ≤ open_interest
  pub volume : ℕ
  pub has_volume : q.volume ≡ some volume
  pub active : p.minimum_volume ≤ volume

none_noted :
    (b : Bool) (reason : LiquidityRefusalReason) (rest : Problems)
    → note_if b reason rest ≡ []
    → (b ≡ false) × (rest ≡ [])
none_noted true reason rest h = absurd (cc h)
none_noted false reason rest h = (refl, h)

none_joined : (xs ys : Problems) → xs ++ ys ≡ [] → (xs ≡ []) × (ys ≡ [])
none_joined [] ys h = (refl, h)
none_joined (x ∷ xs) ys h = absurd (cc h)

enough :
    (o : Option ℕ) (minimum : ℕ)
    → is_below o minimum ≡ false
    → (n : ℕ) × (o ≡ some n) × (minimum ≤ n)
enough none minimum h = absurd (cc h)
enough (some n) minimum h = (n, refl, at_least h)
  where
    at_least : ltb n minimum ≡ false → minimum ≤ n
    at_least h = ground arith

spread_within : (spread : ℤ) (cap : ℕ) → ltb_ℤ (pos cap) spread ≡ false → spread ≤ℤ pos cap
spread_within spread cap h = ground arith

module _ (p : LiquidityPolicy) (quotes : List OptionQuote) (leg : OptionLegIntent)
    (standard : leg.multiplier ≡ 100) where
  on_sides-IsMeasured :
      (q : OptionQuote) (b a : Option ℤ) (l : Legs)
      → quote_for quotes leg.con_id ≡ some q
      → q.bid ≡ b
      → q.ask ≡ a
      → (on_sides p leg q b a l).problems ≡ []
      → IsMeasured p quotes leg × (l.problems ≡ [])
  on_sides-IsMeasured q none a l found eb ea h = absurd (cc h)
  on_sides-IsMeasured q (some bid) none l found eb ea h = absurd (cc h)
  on_sides-IsMeasured q (some bid) (some ask) l found eb ea h =
      let (narrow, h1) =
        none_noted (ltb_ℤ (pos p.max_leg_spread_dollars) (ask -ℤ bid))
          LiquidityRefusalReason.spread_wide _ h in
      let (tight, h2) =
        none_noted (is_wide p.max_leg_spread_fraction bid ask) LiquidityRefusalReason.spread_wide _
          h1 in
      let (deep, h3) =
        none_noted (is_below q.open_interest p.minimum_open_interest) LiquidityRefusalReason.thin _
          h2 in
      let (active, h4) =
        none_noted (is_below q.volume p.minimum_volume) LiquidityRefusalReason.thin _ h3 in
      let (oi, has_oi, enough_oi) = enough q.open_interest p.minimum_open_interest deep in
      let (v, has_v, enough_v) = enough q.volume p.minimum_volume active in
      (
        record {
          standard = standard;
          q = q;
          quoted = found;
          bid = bid;
          ask = ask;
          has_bid = eb;
          has_ask = ea;
          narrow = spread_within (ask -ℤ bid) p.max_leg_spread_dollars narrow;
          tight = tight;
          open_interest = oi;
          has_interest = has_oi;
          deep = enough_oi;
          volume = v;
          has_volume = has_v;
          active = enough_v;
        },
        h4,
      )

  on_quote-IsMeasured :
      (o : Option OptionQuote) (l : Legs)
      → quote_for quotes leg.con_id ≡ o
      → (on_quote p leg o l).problems ≡ []
      → IsMeasured p quotes leg × (l.problems ≡ [])
  on_quote-IsMeasured none l found h = absurd (cc h)
  on_quote-IsMeasured (some q) l found h = on_sides-IsMeasured q q.bid q.ask l found refl refl h

hundred : (m : ℕ) → not (m == standard_multiplier) ≡ false → m ≡ 100
hundred m h = ground arith

legs-IsMeasured :
    (p : LiquidityPolicy) (quotes : List OptionQuote) (legs : List OptionLegIntent)
    → nonstandard_legs legs ≡ []
    → (measure_legs p quotes legs).problems ≡ []
    → All (IsMeasured p quotes) legs
unfolding nonstandard_legs measure_legs
legs-IsMeasured p quotes [] n h = tt
legs-IsMeasured p quotes (leg ∷ legs) n h =
    let (same, n') =
      none_noted (not (leg.multiplier == standard_multiplier)) LiquidityRefusalReason.nonstandard _
        n in
    let (one, h') =
      on_quote-IsMeasured p quotes leg (hundred leg.multiplier same) (quote_for quotes leg.con_id)
        (measure_legs p quotes legs) refl h in
    (one, legs-IsMeasured p quotes legs n' h')

none_leads :
    (order problems : Problems)
    → lead_of order problems ≡ none
    → All (λ reason. any (same_reason reason) problems ≡ false) order
unfolding lead_of
none_leads [] problems h = tt
none_leads (reason ∷ order) problems h =
    let (absent, later) =
      not_leading (any (same_reason reason) problems) reason (lead_of order problems) h in
    (absent, none_leads order problems later)
  where
    not_leading :
        (b : Bool) (reason : LiquidityRefusalReason) (rest : Option LiquidityRefusalReason)
        → (if b then some reason else rest) ≡ none
        → (b ≡ false) × (rest ≡ none)
    not_leading true reason rest h = absurd (cc h)
    not_leading false reason rest h = (refl, h)

-- There is no leading reason only where there is none at all.
verdict-none : (problems : Problems) → verdict problems ≡ none → problems ≡ []
unfolding verdict
verdict-none [] h = refl
verdict-none (LiquidityRefusalReason.nonstandard ∷ problems) h =
    absurd (cc (none_leads severity (LiquidityRefusalReason.nonstandard ∷ problems) h).0)
verdict-none (LiquidityRefusalReason.unmeasurable ∷ problems) h =
    absurd (cc (none_leads severity (LiquidityRefusalReason.unmeasurable ∷ problems) h).1.0)
verdict-none (LiquidityRefusalReason.one_sided ∷ problems) h =
    absurd (cc (none_leads severity (LiquidityRefusalReason.one_sided ∷ problems) h).1.1.0)
verdict-none (LiquidityRefusalReason.spread_wide ∷ problems) h =
    absurd (cc (none_leads severity (LiquidityRefusalReason.spread_wide ∷ problems) h).1.1.1.0)
verdict-none (LiquidityRefusalReason.thin ∷ problems) h =
    absurd (cc (none_leads severity (LiquidityRefusalReason.thin ∷ problems) h).1.1.1.1.0)
verdict-none (LiquidityRefusalReason.sparse_chain ∷ problems) h =
    absurd (cc (none_leads severity (LiquidityRefusalReason.sparse_chain ∷ problems) h).1.1.1.1.1.0)

-- The book that crossing the structure costs an affordable share of.
pub record IsAffordable (p : LiquidityPolicy) (s : Sums) : Type 0 where
  pub worth : pos 0 <ℤ mid_credit s
  pub affordable : crossing s *ℤ scale ≤ℤ mid_credit s *ℤ p.max_crossing_cost_fraction

crossing-IsAffordable :
    (p : LiquidityPolicy) (s : Sums) (problems : Problems)
    → s.structure_priceable ≡ true
    → crossing_problems p s problems ≡ []
    → IsAffordable p s
crossing-IsAffordable p s problems priceable h =
    let h' =
      subst (λ (b : Bool). (if b then worth_noted p s problems else problems) ≡ []) priceable h in
    by_worth (leb_ℤ (mid_credit s) (pos 0)) refl h'
  where
    above : (a : ℤ) → leb_ℤ a (pos 0) ≡ false → pos 0 <ℤ a
    above a e = ground arith

    below : (a b : ℤ) → ltb_ℤ b a ≡ false → a ≤ℤ b
    below a b e = ground arith

    by_worth :
        (b : Bool)
        → leb_ℤ (mid_credit s) (pos 0) ≡ b
        → (if b
            then LiquidityRefusalReason.unmeasurable ∷ problems
            else note_if (is_dear p s) LiquidityRefusalReason.spread_wide problems)
          ≡ []
        → IsAffordable p s
    by_worth true e k = absurd (cc k)
    by_worth false e k =
        let (cheap, _) = none_noted (is_dear p s) LiquidityRefusalReason.spread_wide problems k in
        record {
          worth = above (mid_credit s) e;
          affordable =
              below (crossing s *ℤ scale) (mid_credit s *ℤ p.max_crossing_cost_fraction) cheap;
        }

crossing_none :
    (p : LiquidityPolicy) (s : Sums) (problems : Problems)
    → crossing_problems p s problems ≡ []
    → problems ≡ []
crossing_none p s problems h =
    by_tests s.structure_priceable (leb_ℤ (mid_credit s) (pos 0)) (is_dear p s) h
  where
    by_tests :
        (a b c : Bool)
        → (if a
            then (if b
                then LiquidityRefusalReason.unmeasurable ∷ problems
                else note_if c LiquidityRefusalReason.spread_wide problems)
            else problems)
          ≡ []
        → problems ≡ []
    by_tests true true c h = absurd (cc h)
    by_tests true false true h = absurd (cc h)
    by_tests true false false h = h
    by_tests false b c h = h

sides_priceable :
    (p : LiquidityPolicy) (leg : OptionLegIntent) (q : OptionQuote) (b a : Option ℤ) (l : Legs)
    → (on_sides p leg q b a l).problems ≡ []
    → l.sums.structure_priceable ≡ true
    → (on_sides p leg q b a l).sums.structure_priceable ≡ true
sides_priceable p leg q none a l h k = absurd (cc h)
sides_priceable p leg q (some bid) none l h k = absurd (cc h)
sides_priceable p leg q (some bid) (some ask) l h k = elim (Bool-cases (is_sell leg.action)) [
  | inl e ↦ rw e k
  | inr e ↦ rw e k
]

quote_priceable :
    (p : LiquidityPolicy) (leg : OptionLegIntent) (o : Option OptionQuote) (l : Legs)
    → (on_quote p leg o l).problems ≡ []
    → l.sums.structure_priceable ≡ true
    → (on_quote p leg o l).sums.structure_priceable ≡ true
quote_priceable p leg none l h k = absurd (cc h)
quote_priceable p leg (some q) l h k = sides_priceable p leg q q.bid q.ask l h k

-- A structure without a problem on its legs is one that can be priced.
legs_priceable :
    (p : LiquidityPolicy) (quotes : List OptionQuote) (legs : List OptionLegIntent)
    → nonstandard_legs legs ≡ []
    → (measure_legs p quotes legs).problems ≡ []
    → (measure_legs p quotes legs).sums.structure_priceable ≡ true
unfolding nonstandard_legs measure_legs
legs_priceable p quotes [] n h = refl
legs_priceable p quotes (leg ∷ legs) n h =
    let (same, n') =
      none_noted (not (leg.multiplier == standard_multiplier)) LiquidityRefusalReason.nonstandard _
        n in
    let (_, h') =
      on_quote-IsMeasured p quotes leg (hundred leg.multiplier same) (quote_for quotes leg.con_id)
        (measure_legs p quotes legs) refl h in
    quote_priceable p leg (quote_for quotes leg.con_id) (measure_legs p quotes legs) h
      (legs_priceable p quotes legs n' h')

pub check_liquidity-IsMeasured :
    (p : LiquidityPolicy) (legs : List OptionLegIntent) (qs : List OptionQuote)
    (quoted_window : Option ℕ)
    → check_liquidity p legs (some qs) quoted_window ≡ none
    → All (IsMeasured p qs) legs
      × (p.minimum_quoted_strikes ≤ window_of quoted_window qs)
      × IsAffordable p (measure_legs p qs legs).sums
unfolding check_liquidity find_problems
check_liquidity-IsMeasured p legs qs quoted_window h =
    let l = measure_legs p qs legs in
    let (standard, h1) = none_joined (nonstandard_legs legs) _ (verdict-none _ h) in
    let (dense, h2) =
      none_noted (ltb (window_of quoted_window qs) p.minimum_quoted_strikes)
        LiquidityRefusalReason.sparse_chain _ h1 in
    let clean = crossing_none p l.sums l.problems h2 in
    (
      legs-IsMeasured p qs legs standard clean,
      many (window_of quoted_window qs) p.minimum_quoted_strikes dense,
      crossing-IsAffordable p l.sums l.problems (legs_priceable p qs legs standard clean) h2,
    )
  where
    many : (n m : ℕ) → ltb n m ≡ false → m ≤ n
    many n m h = ground arith
