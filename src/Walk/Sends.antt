-- ===== src/Walk/Sends.antt =====
-- engine/src/engine/options/walk.py: what has been established of every order that a walk sends.
use ibkr_strategy_engine.Prelude.{
  ℕ, suc, ◌≤◌, ℤ, pos, ◌≤ℤ◌, ◌≡◌, refl, sym, ap, subst, zero, arith, Bool, true, false, Option,
  some, List, [], ◌∷◌, ◌++◌, All, length,
}
use ibkr_strategy_engine.Prelude.Result.{ok}
use ibkr_strategy_engine.Domain.Legs.{OptionStrategyIntent}
use ibkr_strategy_engine.Domain.Checks.{make_intent}
use ibkr_strategy_engine.Pricing.{tick_regime_for}
use ibkr_strategy_engine.Pricing.Regimes.{tick_regime_made}
use ibkr_strategy_engine.Pricing.Ladder.{ladder_fractions}
use ibkr_strategy_engine.Pricing.Band.{build_ladder-IsLadder}
use ibkr_strategy_engine.Walk.{WalkPolicy, contains, reprice}
use ibkr_strategy_engine.Walk.Orders.{BrokerOrderSnapshot, WalkAttempt, Walk}
use ibkr_strategy_engine.Walk.Rung.{Authorization, World, Plan, Offer, rung_at}
use ibkr_strategy_engine.Walk.Steps.{approves, sent_attempt}
use ibkr_strategy_engine.Walk.Run.{WalkOutcome, plan_of, run}
use ibkr_strategy_engine.Walk.Repriced.{reprice_ok}
use ibkr_strategy_engine.Walk.Kept.{Keeps, IsOffer}
use ibkr_strategy_engine.Walk.Kept.Ended.{IsAny, IsAny-shown, run-keeps}

-- An attempt that was sent: its price, its size, and the strategy that was verified and authorized for it.
pub record SafelySent (world : World) (plan : Plan) (a : WalkAttempt) : Type 0 where
  pub rung : ℕ
  pub price : ℕ
  pub candidate : OptionStrategyIntent
  pub again : Bool
  pub is_rung : a.index ≡ suc rung
  pub is_price : a.credit ≡ some (pos price)
  pub above_minimum : plan.envelope.minimum ≤ℤ pos price
  pub below_maximum : pos price ≤ℤ plan.envelope.maximum
  pub above_floor : plan.floor ≤ℤ pos price
  pub not_grown : a.quantity ≤ plan.intent.quantity
  pub priced : reprice plan.intent (pos price) a.quantity ≡ ok candidate
  pub accepted : make_intent candidate ≡ ok candidate
  pub verified : approves (world.reverify rung again candidate) ≡ true
  pub authorized : world.authorize rung candidate ≡ Authorization.authorizes

abbrev IfSent : Bool → Type 0 → Type 0
IfSent true T = T
IfSent false T = Unit

abbrev pub IsSafe : World → Plan → WalkAttempt → Type 0
IsSafe world plan a = IfSent a.sent (SafelySent world plan a)

All-snoc :
    (P : WalkAttempt → Type 0) (xs : List WalkAttempt) (x : WalkAttempt)
    → All P xs
    → P x
    → All P (xs ++ x ∷ [])
All-snoc P [] x h p = (p, tt)
All-snoc P (y ∷ xs) x (q, h) p = (q, All-snoc P xs x h p)

length-snoc : (xs : List WalkAttempt) (x : WalkAttempt) → length (xs ++ x ∷ []) ≡ suc (length xs)
length-snoc [] x = refl
length-snoc (y ∷ xs) x = ap suc (length-snoc xs x)

All-at : (P : ℕ → Type 0) (xs : List ℕ) (n x : ℕ) → rung_at xs n ≡ some x → All P xs → P x
unfolding rung_at
All-at P [] n x e h = absurd (cc e)
All-at P (y ∷ xs) zero x e h = subst P (ground arith) h.0
All-at P (y ∷ xs) (suc n) x e h = All-at P xs n x e h.1

module _ (world : World) (plan : Plan) where
  -- A rung of the ladder of an offer is above the floor.
  offered-floor :
      (n : ℕ) (o : Offer)
      → plan.regime ≡ tick_regime_for plan.intent.underlying
      → IsOffer world plan n o
      → plan.floor ≤ℤ pos o.credit
  offered-floor n o schedule is =
      let (quotes, l, built, at) = is.offered in
      let (m, mid, is_ladder) =
        build_ladder-IsLadder plan.intent.price_effect plan.intent.legs plan.intent.underlying
          (some quotes) plan.envelope plan.floor (some plan.regime) ladder_fractions l plan.regime
          (rw schedule (tick_regime_made plan.intent.underlying)) built in
      All-at (λ (x : ℕ). plan.floor ≤ℤ pos x) l.rungs n o.credit at is_ladder.above_credit

  contains-bounds :
      (price : ℤ)
      → contains plan.envelope price ≡ true
      → (plan.envelope.minimum ≤ℤ price) × (price ≤ℤ plan.envelope.maximum)
  contains-bounds price h = ground arith

  abbrev AllSafe : ℕ → Walk → Type 0
  AllSafe n walk = All (IsSafe world plan) walk.attempts

  sent-IsSafe :
      (n : ℕ) (o : Offer) (s : Option BrokerOrderSnapshot)
      → plan.regime ≡ tick_regime_for plan.intent.underlying
      → IsOffer world plan n o
      → world.authorize n o.candidate ≡ Authorization.authorizes
      → SafelySent world plan (sent_attempt n o s)
  sent-IsSafe n o s schedule is granted =
      let (_, not_grown, accepted) =
        reprice_ok plan.intent o.candidate (pos o.credit) o.quantity is.priced in
      let (above, below) = contains-bounds (pos o.credit) is.inside in
      record {
        rung = n;
        price = o.credit;
        candidate = o.candidate;
        again = is.approved.0;
        is_rung = refl;
        is_price = refl;
        above_minimum = above;
        below_maximum = below;
        above_floor = offered-floor n o schedule is;
        not_grown = not_grown;
        priced = is.priced;
        accepted = accepted;
        verified = is.approved.1;
        authorized = granted;
      }

  unsent-IsSafe : (a : WalkAttempt) → a.sent ≡ false → IsSafe world plan a
  unsent-IsSafe a e = rw e tt

  AllSafe-kept :
      plan.regime ≡ tick_regime_for plan.intent.underlying → Keeps world plan IsAny AllSafe
  AllSafe-kept schedule = record {
    looked = λ n walk w look e k i. i;
    laddered = λ n walk l i. i;
    dropped = λ n walk dead i. i;
    skipped = λ n walk i. i;
    refused = λ n walk a e i. All-snoc (IsSafe world plan) walk.attempts a i (unsent-IsSafe a e);
    offered = λ n o s is granted idle k i.
        All-snoc (IsSafe world plan) o.walk.attempts (sent_attempt n o s) i
          (sent-IsSafe n o s schedule is granted);
  }

  IsNumbered-kept : Keeps world plan IsAny (λ n walk. length walk.attempts ≤ n)
  IsNumbered-kept = record {
    looked = λ n walk w look e k i. i;
    laddered = λ n walk l i. i;
    dropped = λ n walk dead i. i;
    skipped = λ n walk i. omega arith;
    refused = λ n walk a e i. rw (length-snoc walk.attempts a) (omega arith);
    offered = λ n o s is granted idle k i.
        rw (length-snoc o.walk.attempts (sent_attempt n o s)) (omega arith);
  }

-- A walk records at most one attempt for each rung of the policy; and every order that it sends is the entry
-- repriced at a price that is in the envelope around the entry's credit and at or above the policy's floor, in
-- a size that is not above the entry's; construction accepts it, the reverifier approved it with its evidence,
-- and it was authorized.
pub sends_safely :
    (world : World) (policy : WalkPolicy) (intent : OptionStrategyIntent) (out : WalkOutcome)
    → run world policy intent ≡ ok out
    → (length out.attempts ≤ policy.maximum_attempts)
      × All (IsSafe world (plan_of policy intent)) out.attempts
sends_safely world policy intent out h =
    let plan = plan_of policy intent in
    let safe =
      run-keeps world policy intent IsAny (AllSafe world plan) out (IsAny-shown world)
        (AllSafe-kept world plan refl) tt h in
    let few =
      run-keeps world policy intent IsAny (λ n walk. length walk.attempts ≤ n) out
        (IsAny-shown world) (IsNumbered-kept world plan) (omega arith) h in
    (
      subst (λ (x : WalkOutcome). length x.attempts ≤ policy.maximum_attempts) (sym few.is_outcome)
          few.kept,
      subst (λ (x : WalkOutcome). All (IsSafe world plan) x.attempts) (sym safe.is_outcome)
          safe.kept,
    )
