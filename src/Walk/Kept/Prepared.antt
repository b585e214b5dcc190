-- ===== src/Walk/Kept/Prepared.antt =====
-- engine/src/engine/options/walk.py: what every step of `run` keeps, pricing and verifying a rung keeps.
use ibkr_strategy_engine.Prelude.{
  ℕ, suc, ℤ, pos, ◌≡◌, refl, ◌∙◌, ap, arith, inl, inr, Bool, true, false, Bool-cases, Option, none,
  some, if◌then◌else◌,
}
use ibkr_strategy_engine.Prelude.Result.{Result, ok, err}
use ibkr_strategy_engine.Domain.Legs.{OptionStrategyIntent}
use ibkr_strategy_engine.Pricing.{PricingError, midpoint_credit}
use ibkr_strategy_engine.Pricing.Ladder.{PriceLadder}
use ibkr_strategy_engine.Walk.{RepriceError, contains, reprice}
use ibkr_strategy_engine.Walk.Orders.{
  BrokerOrderSnapshot, WalkRefusal, Working, Walk, harvest, is_full,
}
use ibkr_strategy_engine.Walk.Rung.{
  Reverification, World, Plan, Exit, Offer, unsent, check_full, look_at, remaining, fresh_quotes,
  or_leave, check_price, check_midpoint, ladder_of, from_pricing, next_rung, rung_at, take_rung,
}
use ibkr_strategy_engine.Walk.Steps.{approves, verified, price_and_verify, prepare}
use ibkr_strategy_engine.Walk.Kept.{After, After-bind, After-weaken, Leaves, IsOffer, Shows, Keeps}

verified_ok :
    (reverify : OptionStrategyIntent → Option Reverification)
    (m : Result RepriceError OptionStrategyIntent) (candidate : OptionStrategyIntent)
    → verified reverify m ≡ ok candidate
    → (m ≡ ok candidate) × (approves (reverify candidate) ≡ true)
verified_ok reverify (err cause) candidate h = absurd (cc h)
verified_ok reverify (ok c) candidate h = approved_ok c candidate (approves (reverify c)) refl h
  where
    approved_ok :
        (c candidate : OptionStrategyIntent) (b : Bool)
        → approves (reverify c) ≡ b
        → ◌≡◌ {A = Result WalkRefusal OptionStrategyIntent}
            (if b then ok c else err WalkRefusal.risk_at_new_credit)
            (ok candidate)
        → (◌≡◌ {A = Result RepriceError OptionStrategyIntent} (ok c) (ok candidate))
          × (approves (reverify candidate) ≡ true)
    approved_ok c candidate true e h = ground arith
    approved_ok c candidate false e h = ground arith

module _ (world : World) (plan : Plan)
    (K : OptionStrategyIntent → Option BrokerOrderSnapshot → Type 0) (I : ℕ → Walk → Type 0)
    (shows : Shows K world) (keeps : Keeps world plan K I) where
  abbrev Left : ℕ → Exit → Type 0
  Left n = Leaves (I (suc n))

  pub check_full-keeps :
      (n : ℕ) (walk : Walk) (Q : Walk → Type 0)
      → Q walk
      → I n walk
      → After (Left n) Q (check_full plan walk)
  unfolding check_full
  check_full-keeps n walk Q q i = elim (Bool-cases (is_full plan.intent.quantity walk)) [
    | inl e ↦ rw e (keeps.skipped n walk i)
    | inr e ↦ rw e q
  ]

  look_at-keeps :
      (n : ℕ) (walk : Walk) (o : Option Working)
      → walk.working ≡ o
      → I n walk
      → After (Left n) (I n) (look_at plan walk o (world.look n))
  unfolding look_at
  look_at-keeps n walk none e i = i
  look_at-keeps n walk (some w) e i =
      let seen = keeps.looked n walk w (world.look n w.intent) e (shows.look n w.intent) i in
      check_full-keeps n (harvest walk w (world.look n w.intent)) (I n) seen seen

  pub or_leave-keeps :
      {A : Type 0} (n : ℕ) (walk : Walk) (credit : Option ℤ) (quantity : ℕ)
      (m : Result WalkRefusal A)
      → I n walk
      → After (Left n) (λ (a : A). m ≡ ok a) (or_leave walk n credit quantity m)
  unfolding or_leave
  or_leave-keeps n walk credit quantity (ok a) i = refl
  or_leave-keeps n walk credit quantity (err cause) i =
      keeps.refused n walk (unsent n credit quantity cause) refl i

  check_price-keeps :
      (n : ℕ) (walk : Walk) (price : ℤ)
      → I n walk
      → After
          (Left n)
          (λ (u : Unit). contains plan.envelope price ≡ true)
          (check_price plan walk n price)
  unfolding check_price
  check_price-keeps n walk price i = elim (Bool-cases (contains plan.envelope price)) [
    | inl e ↦ rw e refl
    | inr e ↦ rw e (
        keeps.refused n walk
          (unsent n (some price) (remaining plan walk) WalkRefusal.outside_envelope) refl i)
  ]

  check_midpoint-keeps :
      (n : ℕ) (walk : Walk) (o : Option ℤ)
      → I n walk
      → After (Left n) (λ (u : Unit). Unit) (check_midpoint plan walk n o)
  unfolding check_midpoint
  check_midpoint-keeps n walk none i =
      keeps.refused n walk (unsent n none (remaining plan walk) WalkRefusal.unpriceable) refl i
  check_midpoint-keeps n walk (some price) i =
      After-weaken (Left n) _ _ (check_price plan walk n price) (λ u e. tt)
        (check_price-keeps n walk price i)

  from_pricing-keeps :
      (n : ℕ) (walk : Walk) (m : Result PricingError (Option PriceLadder))
      → I n walk
      → After (Left n) (λ (x : Walk). I n x × (m ≡ ok x.ladder)) (from_pricing walk m)
  unfolding from_pricing
  from_pricing-keeps n walk (err cause) i = tt
  from_pricing-keeps n walk (ok ladder) i = (keeps.laddered n walk ladder i, refl)

  -- A credit that is offered is on the ladder and in the envelope.
  abbrev OnRung : ℕ → Option PriceLadder → ℕ → Type 0
  OnRung n o credit =
      (l : PriceLadder) × (o ≡ some l)
      × (rung_at l.rungs n ≡ some credit)
      × (contains plan.envelope (pos credit) ≡ true)

  take_rung-keeps :
      (n : ℕ) (walk : Walk) (o : Option ℕ)
      → I n walk
      → After
          (Left n)
          (λ (credit : ℕ). (o ≡ some credit) × (contains plan.envelope (pos credit) ≡ true))
          (take_rung plan walk n o)
  unfolding take_rung
  take_rung-keeps n walk none i =
      keeps.refused n walk (unsent n none (remaining plan walk) WalkRefusal.ladder_exhausted) refl i
  take_rung-keeps n walk (some credit) i =
      After-bind (Left n) _ _ (check_price plan walk n (pos credit)) _
        (check_price-keeps n walk (pos credit) i) (λ u inside. (refl, inside))

  next_rung-keeps :
      (n : ℕ) (walk : Walk) (o : Option PriceLadder)
      → I n walk
      → After (Left n) (OnRung n o) (next_rung plan walk n o)
  unfolding next_rung
  next_rung-keeps n walk none i =
      keeps.refused n walk (unsent n none (remaining plan walk) WalkRefusal.unpriceable) refl i
  next_rung-keeps n walk (some l) i =
      After-weaken (Left n) _ (OnRung n (some l)) (take_rung plan walk n (rung_at l.rungs n))
        (λ credit (at, inside). (l, refl, at, inside))
        (take_rung-keeps n walk (rung_at l.rungs n) i)

  pub price_and_verify_ok :
      (n : ℕ) (again : Bool) (credit quantity : ℕ) (candidate : OptionStrategyIntent)
      → price_and_verify (world.reverify n again) plan.intent credit quantity ≡ ok candidate
      → (reprice plan.intent (pos credit) quantity ≡ ok candidate)
        × (approves (world.reverify n again candidate) ≡ true)
  unfolding price_and_verify
  price_and_verify_ok n again credit quantity candidate h =
      verified_ok (world.reverify n again) _ candidate h

  abbrev pub Ready : ℕ → Offer → Type 0
  Ready n o = I n o.walk × IsOffer world plan n o

  pub prepare-keeps :
      (n : ℕ) (walk : Walk) → I n walk → After (Left n) (Ready n) (prepare world plan n walk)
  unfolding prepare
  prepare-keeps n walk i =
      After-bind (Left n) (I n) (Ready n) (look_at plan walk walk.working (world.look n)) _
        (look_at-keeps n walk walk.working refl i)
        λ seen j.
          After-bind (Left n) _ (Ready n)
            (or_leave seen n none (remaining plan seen) (fresh_quotes (world.quotes n))) _
            (or_leave-keeps n seen none (remaining plan seen) (fresh_quotes (world.quotes n)) j)
            λ quotes e.
              After-bind (Left n) _ (Ready n)
                (check_midpoint plan seen n (midpoint_credit plan.intent.legs (some quotes))) _
                (check_midpoint-keeps n seen (midpoint_credit plan.intent.legs (some quotes)) j)
                λ u v.
                  After-bind (Left n) _ (Ready n) (from_pricing seen (ladder_of plan quotes)) _
                    (from_pricing-keeps n seen (ladder_of plan quotes) j)
                    λ laddered (k, built).
                      After-bind (Left n) (OnRung n laddered.ladder) (Ready n)
                        (next_rung plan laddered n laddered.ladder) _
                        (next_rung-keeps n laddered laddered.ladder k)
                        λ credit (l, there, at, inside).
                          let m =
                            price_and_verify (world.reverify n false) plan.intent credit
                              (remaining plan laddered) in
                          After-bind (Left n) _ (Ready n)
                            (or_leave laddered n (some (pos credit)) (remaining plan laddered) m)
                            (λ candidate. ok (record {
                              walk = laddered;
                              credit = credit;
                              quantity = remaining plan laddered;
                              candidate = candidate;
                            }))
                            (or_leave-keeps n laddered (some (pos credit)) (remaining plan laddered)
                              m k)
                            λ candidate found.
                              let (priced, approved) =
                                price_and_verify_ok n false credit (remaining plan laddered)
                                  candidate found in
                              (
                                k,
                                record {
                                  inside = inside;
                                  offered = (quotes, l, built ∙ ap ok there, at);
                                  sized = refl;
                                  priced = priced;
                                  approved = (false, approved);
                                },
                              )
