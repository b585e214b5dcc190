-- ===== src/Walk/Ends.antt =====
-- engine/src/engine/options/walk.py: the state and the released amount with which a walk returns.
pub mod Rungs
pub mod Returned
use ibkr_strategy_engine.Prelude.{
  ℕ, zero, suc, ◌+◌, ◌-◌, ◌*◌, ◌≤◌, ◌<◌, leb, ℤ, pos, ◌≡◌, refl, sym, subst, arith, Bool, true,
  false, not, Bool-cases, inl, inr, ◌⊎◌, Option, none, some, ◌==◌, List, if◌then◌else◌,
}
use ibkr_strategy_engine.Prelude.Result.{Result, ok, err, ◌>>=◌, ok-injective}
use ibkr_strategy_engine.Governor.Policy.{scale}
use ibkr_strategy_engine.Domain.Legs.{OptionStrategyIntent}
use ibkr_strategy_engine.Pricing.{PricingError, OptionQuote, midpoint_credit}
use ibkr_strategy_engine.Pricing.Ladder.{PriceLadder}
use ibkr_strategy_engine.Walk.{WalkPolicy, contains}
use ibkr_strategy_engine.Walk.Orders.{
  BrokerOrderSnapshot, WalkState, WalkRefusal, Working, Walk, credited_with, harvest, is_full,
  Settlement, settle, is_done,
}
use ibkr_strategy_engine.Walk.Rung.{
  WalkError, World, Plan, Exit, Offer, check_full, look_at, remaining, fresh_quotes, or_leave,
  check_price, check_midpoint, ladder_of, from_pricing, take_rung, next_rung, rung_at,
}
use ibkr_strategy_engine.Walk.Steps.{
  price_and_verify, prepare, partial_or, check_confirmed, or_finish, resize, clear, after_send,
  sent, authorize_and_send, rung,
}
use ibkr_strategy_engine.Walk.Run.{
  rungs, WalkOutcome, outcome, closing_state, release, pull, ending, initial, plan_of, run,
}
use ibkr_strategy_engine.Walk.Kept.{After, After-bind, After-weaken}

-- The state says how much of `total` is filled.
abbrev pub Agrees : ℕ → WalkState → ℕ → Type 0
Agrees total WalkState.filled filled = total ≤ filled
Agrees total WalkState.partially_filled filled = (0 < filled) × (filled < total)
Agrees total _ filled = filled ≡ 0

-- The states with which the loop is left.
abbrev pub IsOver : WalkState → Type 0
IsOver WalkState.refused = Unit
IsOver WalkState.exhausted = Unit
IsOver _ = ⊥

pub partial-Agrees :
    (total : ℕ) (state : WalkState) (walk : Walk)
    → ((f : ℕ) → f ≡ 0 → Agrees total state f)
    → leb total walk.filled ≡ false
    → Agrees total (partial_or state walk) walk.filled
partial-Agrees total state walk empty short = elim (Bool-cases (walk.filled == 0)) [
  | inl e ↦ rw e (empty walk.filled (ground arith))
  | inr e ↦ rw e (ground arith)
]

abbrev pub total : Plan → ℕ
total plan = plan.intent.quantity * scale

-- How the loop may be left; `R` is what follows from an exception.
abbrev pub Tidy : Plan → (WalkError → Type 0) → Exit → Type 0
Tidy plan R (Exit.raised cause) = R cause
Tidy plan R (Exit.leave state _) = IsOver state
Tidy plan R (Exit.finish state walk) = Agrees (total plan) state walk.filled

abbrev pub IsShort : Plan → Walk → Type 0
IsShort plan walk = is_full plan.intent.quantity walk ≡ false

abbrev pub Any : {A : Type 0} → A → Type 0
Any a = Unit

-- A midpoint that the envelope contains.
abbrev pub IsPriced : Plan → Option ℤ → Type 0
IsPriced plan o = (m : ℤ) → o ≡ some m → contains plan.envelope m ≡ true

abbrev pub Raises : Plan → (WalkError → Type 0) → Type 0
Raises plan R =
    (quotes : List OptionQuote) (cause : PricingError)
    → IsPriced plan (midpoint_credit plan.intent.legs (some quotes))
    → ladder_of plan quotes ≡ err cause
    → R (WalkError.pricing cause)

some-injective : {A : Type 0} {a b : A} → some a ≡ some b → a ≡ b
some-injective h = cc

module _ (world : World) (plan : Plan) (R : WalkError → Type 0) (raises : Raises plan R) where
  pub full-Tidy : (walk : Walk) → After (Tidy plan R) (IsShort plan) (check_full plan walk)
  unfolding check_full
  full-Tidy walk = elim (Bool-cases (is_full plan.intent.quantity walk)) [
    | inl e ↦ rw e (ground arith)
    | inr e ↦ rw e e
  ]

  look-Tidy :
      (walk : Walk) (o : Option Working) (look : OptionStrategyIntent → Option BrokerOrderSnapshot)
      → After (Tidy plan R) Any (look_at plan walk o look)
  unfolding look_at
  look-Tidy walk none look = tt
  look-Tidy walk (some w) look =
      After-weaken (Tidy plan R) (IsShort plan) Any
        (check_full plan (harvest walk w (look w.intent))) (λ x e. tt)
        (full-Tidy (harvest walk w (look w.intent)))

  leave-Tidy :
      {A : Type 0} (walk : Walk) (n : ℕ) (credit : Option ℤ) (quantity : ℕ)
      (m : Result WalkRefusal A)
      → After (Tidy plan R) Any (or_leave walk n credit quantity m)
  unfolding or_leave
  leave-Tidy walk n credit quantity (ok a) = tt
  leave-Tidy walk n credit quantity (err cause) = tt

  price-Tidy :
      (walk : Walk) (n : ℕ) (price : ℤ)
      → After
          (Tidy plan R)
          (λ (u : Unit). contains plan.envelope price ≡ true)
          (check_price plan walk n price)
  unfolding check_price
  price-Tidy walk n price = elim (Bool-cases (contains plan.envelope price)) [
    | inl e ↦ rw e refl
    | inr e ↦ rw e tt
  ]

  midpoint-Tidy :
      (walk : Walk) (n : ℕ) (o : Option ℤ)
      → After (Tidy plan R) (λ (u : Unit). IsPriced plan o) (check_midpoint plan walk n o)
  unfolding check_midpoint
  midpoint-Tidy walk n none = tt
  midpoint-Tidy walk n (some price) =
      After-weaken (Tidy plan R) _ _ (check_price plan walk n price)
        (λ u inside m e.
          subst (λ (x : ℤ). contains plan.envelope x ≡ true) (some-injective e) inside)
        (price-Tidy walk n price)

  pricing-Tidy :
      (walk : Walk) (m : Result PricingError (Option PriceLadder))
      → ((cause : PricingError) → m ≡ err cause → R (WalkError.pricing cause))
      → After (Tidy plan R) Any (from_pricing walk m)
  unfolding from_pricing
  pricing-Tidy walk (ok l) k = tt
  pricing-Tidy walk (err cause) k = k cause refl

  take-Tidy :
      (walk : Walk) (n : ℕ) (o : Option ℕ) → After (Tidy plan R) Any (take_rung plan walk n o)
  unfolding take_rung
  take-Tidy walk n none = tt
  take-Tidy walk n (some credit) =
      After-bind (Tidy plan R) _ Any (check_price plan walk n (pos credit)) _
        (price-Tidy walk n (pos credit)) (λ u v. tt)

  next-Tidy :
      (walk : Walk) (n : ℕ) (o : Option PriceLadder)
      → After (Tidy plan R) Any (next_rung plan walk n o)
  unfolding next_rung
  next-Tidy walk n none = tt
  next-Tidy walk n (some l) = take-Tidy walk n (rung_at l.rungs n)

  pub prepare-Tidy : (n : ℕ) (walk : Walk) → After (Tidy plan R) Any (prepare world plan n walk)
  unfolding prepare
  prepare-Tidy n walk =
      After-bind (Tidy plan R) Any Any (look_at plan walk walk.working (world.look n)) _
        (look-Tidy walk walk.working (world.look n))
        λ seen a.
          After-bind (Tidy plan R) Any Any
            (or_leave seen n none (remaining plan seen) (fresh_quotes (world.quotes n))) _
            (leave-Tidy seen n none (remaining plan seen) (fresh_quotes (world.quotes n)))
            λ quotes b.
              After-bind (Tidy plan R) _ Any
                (check_midpoint plan seen n (midpoint_credit plan.intent.legs (some quotes))) _
                (midpoint-Tidy seen n (midpoint_credit plan.intent.legs (some quotes)))
                λ u priced.
                  After-bind (Tidy plan R) Any Any (from_pricing seen (ladder_of plan quotes)) _
                    (pricing-Tidy seen (ladder_of plan quotes)
                      (λ cause e. raises quotes cause priced e))
                    λ laddered d.
                      After-bind (Tidy plan R) Any Any (next_rung plan laddered n laddered.ladder) _
                        (next-Tidy laddered n laddered.ladder)
                        λ credit e.
                          let m =
                            price_and_verify (world.reverify n false) plan.intent credit
                              (remaining plan laddered) in
                          After-bind (Tidy plan R) Any Any
                            (or_leave laddered n (some (pos credit)) (remaining plan laddered) m)
                            (λ candidate. ok (record {
                              walk = laddered;
                              credit = credit;
                              quantity = remaining plan laddered;
                              candidate = candidate;
                            }))
                            (leave-Tidy laddered n (some (pos credit)) (remaining plan laddered) m)
                            (λ candidate f. tt)
