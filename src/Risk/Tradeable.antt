-- ===== src/Risk/Tradeable.antt =====
-- engine/src/engine/options/risk.py: what an approved assessment says of the candidate and of every leg.
use ibkr_strategy_engine.Prelude.{
  ℕ, ◌==◌, ◌≤◌, String, Bool, true, false, not, ◌&&◌, ◌||◌, Option, none, some, is_some, List, [],
  ◌∷◌, any, select, All, ◌≡◌, refl, sym, subst, arith, if◌then◌else◌,
}
use ibkr_strategy_engine.Prelude.Result.{Result, ok, err, >>=-eq-ok, ok-injective}
use ibkr_strategy_engine.Domain.Legs.{OptionLegIntent, OptionStrategyIntent}
use ibkr_strategy_engine.Quotes.{StrategyQuoteSnapshot, OptionQuote, Key}
use ibkr_strategy_engine.Quotes.Gate.{GateError, execution_entitlement_set, active_generation}
use ibkr_strategy_engine.Quotes.Live.{IsCurrent, IsUsable, uniform-IsUsable}
use ibkr_strategy_engine.Liquidity.{
  LiquidityRefusalReason, quote_for, check_liquidity, measure_legs, window_of,
}
use ibkr_strategy_engine.Liquidity.Measured.{IsMeasured, IsAffordable, check_liquidity-IsMeasured}
use ibkr_strategy_engine.Risk.{Verdict, check_defined_loss, check_broker_margin, check_stress_loss}
use ibkr_strategy_engine.Risk.Approval.{IsCovered, candidate-IsCovered}
use ibkr_strategy_engine.Risk.Assess.{
  RefusalCode, CandidateResult, CandidatePolicy, caught, check_market_data_entitlement, code_of,
  liquidity_code, make_assessment, is_tradeable, quotes_of, Market, results_of, assess_candidate,
}

tail_of :
    (P : OptionQuote → Type 0) (wanted : Bool) (x : OptionQuote) (rest : List OptionQuote)
    → All P (if wanted then x ∷ rest else rest)
    → All P rest
tail_of P true x rest h = h.1
tail_of P false x rest h = h

found_quote :
    (P : OptionQuote → Type 0) (o : Option OptionQuote) (b wanted : Bool) (x q : OptionQuote)
    (rest : List OptionQuote)
    → All P (if wanted then x ∷ rest else rest)
    → (b ≡ true → wanted ≡ true)
    → (elim o [ some later ↦ some later | none ↦ if b then some x else none ]) ≡ some q
    → (o ≡ some q → All P rest → P q)
    → P q
found_quote P (some later) b wanted x q rest h w e k = k e (tail_of P wanted x rest h)
found_quote P none true true x q rest h w e k = subst P (one e) h.0
  where
    one : some x ≡ some q → x ≡ q
    one e = cc
found_quote P none true false x q rest h w e k = absurd (cc (w refl))
found_quote P none false wanted x q rest h w e k = absurd (cc e)

-- The quote that a leg is priced by is among those that were selected.
selected-quote :
    (P : OptionQuote → Type 0) (f : OptionQuote → Bool) (quotes : List OptionQuote) (con_id : ℕ)
    (q : OptionQuote)
    → ((x : OptionQuote) → (x.con_id == con_id) ≡ true → f x ≡ true)
    → All P (select f quotes)
    → quote_for quotes con_id ≡ some q
    → P q
unfolding quote_for
selected-quote P f [] con_id q wanted h e = absurd (cc e)
selected-quote P f (x ∷ quotes) con_id q wanted h e =
    found_quote P (quote_for quotes con_id) (x.con_id == con_id) (f x) x q (select f quotes) h
      (wanted x) e (λ later rest. selected-quote P f quotes con_id q wanted rest later)

-- A leg with its quote, which is usable, and with a market of two sides that is tight and deep enough.
pub record IsSound (p : CandidatePolicy) (m : Market) (s : StrategyQuoteSnapshot)
    (leg : OptionLegIntent) : Type 0 where
  pub measured : IsMeasured p.liquidity s.legs leg
  pub usable : IsUsable m.evaluated_at p.quote_maximum_age s.generations measured.q

-- What an approved assessment establishes.
pub record IsTradeable (p : CandidatePolicy) (m : Market) (intent : OptionStrategyIntent)
    : Type 0 where
  pub covered : IsCovered p.caps m.net_liquidation m.margin m.underlying_price intent
  pub s : StrategyQuoteSnapshot
  pub supplied : m.quotes ≡ some s
  pub active : String
  pub known : active_generation s.generations Key.underlying ≡ ok active
  pub current : IsCurrent m.evaluated_at p.quote_maximum_age active s.underlying.provenance
  pub sound : All (IsSound p m s) intent.legs
  pub dense : p.liquidity.minimum_quoted_strikes ≤ window_of m.quoted_window s.legs
  pub affordable : IsAffordable p.liquidity (measure_legs p.liquidity s.legs intent.legs).sums

clear_of : (v : Verdict) → is_some (code_of v) ≡ false → v ≡ Verdict.approval
clear_of Verdict.approval h = refl
clear_of (Verdict.refusal reason) h = absurd (cc h)

liquid_of : (o : Option LiquidityRefusalReason) → is_some (liquidity_code o) ≡ false → o ≡ none
liquid_of none h = refl
liquid_of (some reason) h = absurd (cc h)

unnamed : (o : Option RefusalCode) → is_some o ≡ false → o ≡ none
unnamed none h = refl
unnamed (some code) h = absurd (cc h)

five :
    (a b c d e : Bool)
    → (not a && (not b && (not c && (not d && (not e && true))))) ≡ true
    → (a ≡ false) × (b ≡ false) × (c ≡ false) × (d ≡ false) × (e ≡ false)
five a b c d e h = ground arith

uncaught : (m : Result GateError Unit) → caught m ≡ ok none → m ≡ ok tt
uncaught (ok u) h = refl
uncaught (err (GateError.refused reason)) h = absurd (cc (ok-injective h))
uncaught (err GateError.key_error) h = absurd (cc h)

module _ (p : CandidatePolicy) (m : Market) (s : StrategyQuoteSnapshot) where
  -- Every leg of the structure is one whose quotes the first check looks at.
  IsSound-legs :
      (all_legs legs : List OptionLegIntent)
      → All (λ leg. any (λ l. leg.con_id == l.con_id) all_legs ≡ true) legs
      → All
          (IsUsable m.evaluated_at p.quote_maximum_age s.generations)
          (execution_entitlement_set s.legs all_legs)
      → All (IsMeasured p.liquidity s.legs) legs
      → All (IsSound p m s) legs
  IsSound-legs all_legs [] named usable measured = tt
  IsSound-legs all_legs (leg ∷ legs) (mine, named) usable (one, measured) = (
    record {
      measured = one;
      usable =
          selected-quote (IsUsable m.evaluated_at p.quote_maximum_age s.generations)
            (λ q. any (λ l. q.con_id == l.con_id) all_legs) s.legs leg.con_id one.q
            (λ x same. same_named x.con_id leg.con_id all_legs same mine) usable one.quoted;
    },
    IsSound-legs all_legs legs named usable measured,
  )
    where
      equal : (b a : ℕ) → (a == b) ≡ true → b ≡ a
      equal b a same = ground arith

      same_named :
          (a b : ℕ) (legs : List OptionLegIntent)
          → (a == b) ≡ true
          → any (λ l. b == l.con_id) legs ≡ true
          → any (λ l. a == l.con_id) legs ≡ true
      same_named a b legs same mine =
          subst (λ (n : ℕ). any (λ l. n == l.con_id) legs ≡ true) (equal b a same) mine

named_more :
    (leg : OptionLegIntent) (all_legs legs : List OptionLegIntent)
    → All (λ l. any (λ x. l.con_id == x.con_id) all_legs ≡ true) legs
    → All (λ l. any (λ x. l.con_id == x.con_id) (leg ∷ all_legs) ≡ true) legs
named_more leg all_legs [] h = tt
named_more leg all_legs (l ∷ legs) (one, h) =
    (either (l.con_id == leg.con_id) _ one, named_more leg all_legs legs h)
  where
    either : (a b : Bool) → b ≡ true → (a || b) ≡ true
    either a b h = ground arith

All-named :
    (legs : List OptionLegIntent) → All (λ l. any (λ x. l.con_id == x.con_id) legs ≡ true) legs
All-named [] = tt
All-named (leg ∷ legs) = (itself leg.con_id _, named_more leg legs legs (All-named legs))
  where
    itself : (n : ℕ) (b : Bool) → ((n == n) || b) ≡ true
    itself n b = ground arith

supplied-IsTradeable :
    (p : CandidatePolicy) (m : Market) (intent : OptionStrategyIntent)
    (o : Option StrategyQuoteSnapshot)
    → m.quotes ≡ o
    → check_market_data_entitlement m.evaluated_at p.quote_maximum_age intent o ≡ ok none
    → check_liquidity p.liquidity intent.legs (quotes_of o) m.quoted_window ≡ none
    → IsCovered p.caps m.net_liquidation m.margin m.underlying_price intent
    → IsTradeable p m intent
unfolding check_market_data_entitlement
supplied-IsTradeable p m intent none e live liquid covered = absurd (cc (ok-injective live))
supplied-IsTradeable p m intent (some s) e live liquid covered =
    let ((active, known, current), usable) =
      uniform-IsUsable m.evaluated_at p.quote_maximum_age s.generations s.underlying
        (execution_entitlement_set s.legs intent.legs) (uncaught _ live) in
    let (measured, dense, affordable) =
      check_liquidity-IsMeasured p.liquidity intent.legs s.legs m.quoted_window liquid in
    record {
      covered = covered;
      s = s;
      supplied = e;
      active = active;
      known = known;
      current = current;
      sound = IsSound-legs p m s intent.legs intent.legs (All-named intent.legs) usable measured;
      dense = dense;
      affordable = affordable;
    }

assessment_same :
    (version : String) (results made : List CandidateResult)
    → make_assessment version results ≡ ok made
    → results ≡ made
unfolding make_assessment
assessment_same version results made h = ground arith

-- An assessment that approves a candidate has one snapshot, of which the underlying is live, current and of the
-- active subscription, and in which every leg has a quote that is so too, has a delta of that subscription, and
-- has a market of two sides whose spread, open interest and volume the policy accepts; the book as a whole is
-- dense enough and affordable to cross; and the losses and the margin are within every cap.
pub approved-IsTradeable :
    (p : CandidatePolicy) (m : Market) (intent : OptionStrategyIntent)
    (results : List CandidateResult)
    → assess_candidate p m intent ≡ ok results
    → is_tradeable results ≡ true
    → IsTradeable p m intent
unfolding assess_candidate
approved-IsTradeable p m intent results h approved =
    let (entitlement, live, h1) =
      >>=-eq-ok (check_market_data_entitlement m.evaluated_at p.quote_maximum_age intent m.quotes) _
        h in
    let same = assessment_same p.version (results_of p m intent entitlement) results h1 in
    let (a, b, c, d, e) =
      five (is_some entitlement)
        (is_some (code_of (check_defined_loss p.caps m.net_liquidation intent)))
        (is_some (code_of (check_broker_margin p.caps m.net_liquidation m.margin)))
        (is_some (code_of (check_stress_loss p.caps m.net_liquidation m.underlying_price intent)))
        (is_some (
          liquidity_code
            (check_liquidity p.liquidity intent.legs (quotes_of m.quotes) m.quoted_window)))
        (subst (λ (rs : List CandidateResult). is_tradeable rs ≡ true) (sym same) approved) in
    supplied-IsTradeable p m intent m.quotes refl (rw (unnamed entitlement a) at live)
      (liquid_of _ e)
      (candidate-IsCovered p.caps m.net_liquidation m.margin m.underlying_price intent
        (clear_of _ b) (clear_of _ c) (clear_of _ d))
