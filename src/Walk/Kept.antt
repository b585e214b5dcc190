-- ===== src/Walk/Kept.antt =====
-- engine/src/engine/options/walk.py: what every step of `run` keeps, the walk keeps. A property of the
-- variables of `run`, by the number of the rung, is kept where the six changes that `run` makes to them keep it.
pub mod Prepared
pub mod Sending
pub mod Ended
use ibkr_strategy_engine.Prelude.{
  ℕ, zero, suc, ◌+◌, ℤ, pos, ◌≡◌, refl, sym, ◌∙◌, ap, subst, arith, inl, inr, Bool, true, false,
  not, Bool-cases, Option, none, some, List, [], ◌∷◌, All, if◌then◌else◌, ◌==◌,
}
use ibkr_strategy_engine.Prelude.Result.{Result, ok, err, ◌>>=◌, ◌>>◌}
use ibkr_strategy_engine.Domain.Legs.{OptionStrategyIntent}
use ibkr_strategy_engine.Pricing.{PricingError, OptionQuote, midpoint_credit}
use ibkr_strategy_engine.Pricing.Ladder.{PriceLadder}
use ibkr_strategy_engine.Walk.{RepriceError, contains, reprice}
use ibkr_strategy_engine.Walk.Orders.{
  BrokerOrderSnapshot, WalkState, WalkRefusal, WalkAttempt, Working, Walk, credited_with, harvest,
  drop, is_done, is_full, poll, settle, Cancelling,
}
use ibkr_strategy_engine.Walk.Rung.{
  Authorization, Reverification, World, Plan, Exit, Offer, add_attempt, unsent, leaving, check_full,
  look_at, remaining, fresh_quotes, or_leave, check_price, check_midpoint, ladder_of, from_pricing,
  next_rung, rung_at, take_rung,
}
use ibkr_strategy_engine.Walk.Steps.{
  approves, verified, price_and_verify, prepare, check_confirmed, or_finish, resize, clear,
  working_on, sent_attempt, after_send, sent, authorize_and_send, rung,
}
use ibkr_strategy_engine.Walk.Run.{rungs}

-- What holds of a step: one thing where it leaves, another where it goes on.
abbrev pub After : {A : Type 0} → (Exit → Type 0) → (A → Type 0) → Result Exit A → Type 0
After P Q (err exit) = P exit
After P Q (ok a) = Q a

pub After-bind :
    {A B : Type 0} (P : Exit → Type 0) (Q : A → Type 0) (R : B → Type 0) (m : Result Exit A)
    (f : A → Result Exit B)
    → After P Q m
    → ((a : A) → Q a → After P R (f a))
    → After P R (m >>= f)
After-bind P Q R (err exit) f h k = h
After-bind P Q R (ok a) f h k = k a h

pub After-weaken :
    {A : Type 0} (P : Exit → Type 0) (Q R : A → Type 0) (m : Result Exit A)
    → ((a : A) → Q a → R a)
    → After P Q m
    → After P R m
After-weaken P Q R (err exit) k h = h
After-weaken P Q R (ok a) k h = k a h

-- The walk with which the loop is left.
abbrev pub Leaves : (Walk → Type 0) → Exit → Type 0
Leaves J (Exit.raised _) = Unit
Leaves J (Exit.leave _ walk) = J walk
Leaves J (Exit.finish _ walk) = J walk

-- What the steps of a rung establish of the order that it offers.
pub record IsOffer (world : World) (plan : Plan) (n : ℕ) (o : Offer) : Type 0 where
  pub inside : contains plan.envelope (pos o.credit) ≡ true
  pub offered :
      (quotes : List OptionQuote) × (l : PriceLadder) × (ladder_of plan quotes ≡ ok (some l))
      × (rung_at l.rungs n ≡ some o.credit)
  pub sized : o.quantity ≡ remaining plan o.walk
  pub priced : reprice plan.intent (pos o.credit) o.quantity ≡ ok o.candidate
  pub approved : (again : Bool) × (approves (world.reverify n again o.candidate) ≡ true)

-- Every look that the world gives at an order.
pub record Shows (K : OptionStrategyIntent → Option BrokerOrderSnapshot → Type 0) (world : World)
    : Type 0 where
  pub look : (n : ℕ) (i : OptionStrategyIntent) → K i (world.look n i)
  pub look_again : (n : ℕ) (i : OptionStrategyIntent) → K i (world.look_again n i)
  pub first : (n : ℕ) (i : OptionStrategyIntent) → K i (world.cancelling n i).first
  pub rest : (n : ℕ) (i : OptionStrategyIntent) → All (K i) (world.cancelling n i).rest
  pub sent :
      (n : ℕ) (i : OptionStrategyIntent) (s : Option BrokerOrderSnapshot)
      → world.send n i ≡ some s
      → K i s
  pub last_look : (i : OptionStrategyIntent) → K i (world.last_look i)
  pub last_first : (i : OptionStrategyIntent) → K i (world.last_cancelling i).first
  pub last_rest : (i : OptionStrategyIntent) → All (K i) (world.last_cancelling i).rest

-- The order that the walk holds was last seen dead.
abbrev pub IsDead : Walk → Type 0
IsDead walk = (w : Working) × (walk.working ≡ some w) × (is_done w.snapshot ≡ true)

pub credited-is_done :
    (w : Working) (look : Option BrokerOrderSnapshot)
    → is_done look ≡ true
    → is_done (credited_with w look).snapshot ≡ true
credited-is_done w none e = absurd (cc e)
credited-is_done w (some seen) e = e

poll-IsDead :
    (looks : List (Option BrokerOrderSnapshot)) (walk : Walk) (w : Working)
    (look : Option BrokerOrderSnapshot)
    → (poll walk w look looks).confirmed ≡ true
    → IsDead (poll walk w look looks).walk
unfolding poll
poll-IsDead [] walk w look e = (credited_with w look, refl, credited-is_done w look e)
poll-IsDead (next ∷ looks) walk w look e = elim (Bool-cases (is_done look)) [
  | inl d ↦ rw (d, poll) (credited_with w look, refl, credited-is_done w look d)
  | inr d ↦
      rw (d, poll)
        (poll-IsDead looks (harvest walk w look) (credited_with w look) next (rw (d, poll) at e))
]

pub settle-IsDead :
    (walk : Walk) (w : Working) (c : Cancelling)
    → (settle walk w c).confirmed ≡ true
    → IsDead (settle walk w c).walk
unfolding settle
settle-IsDead walk w c e = by_request c.accepted e
  where
    by_request :
        (b : Bool)
        → (if b
            then poll walk w c.first c.rest
            else record { confirmed = false; walk = walk }).confirmed
          ≡ true
        → IsDead
            (if b
              then poll walk w c.first c.rest
              else record { confirmed = false; walk = walk }).walk
    by_request true e = poll-IsDead c.rest walk w c.first e
    by_request false e = absurd (cc e)

pub record Keeps (world : World) (plan : Plan)
    (K : OptionStrategyIntent → Option BrokerOrderSnapshot → Type 0) (I : ℕ → Walk → Type 0)
    : Type 0 where
  pub looked :
      (n : ℕ) (walk : Walk) (w : Working) (look : Option BrokerOrderSnapshot)
      → walk.working ≡ some w
      → K w.intent look
      → I n walk
      → I n (harvest walk w look)
  pub laddered :
      (n : ℕ) (walk : Walk) (ladder : Option PriceLadder)
      → I n walk
      → I n (record walk { ladder = ladder })
  pub dropped : (n : ℕ) (walk : Walk) → IsDead walk → I n walk → I n (drop walk)
  pub skipped : (n : ℕ) (walk : Walk) → I n walk → I (suc n) walk
  pub refused :
      (n : ℕ) (walk : Walk) (a : WalkAttempt)
      → a.sent ≡ false
      → I n walk
      → I (suc n) (add_attempt a walk)
  pub offered :
      (n : ℕ) (o : Offer) (s : Option BrokerOrderSnapshot)
      → IsOffer world plan n o
      → world.authorize n o.candidate ≡ Authorization.authorizes
      → o.walk.working ≡ none
      → K o.candidate s
      → I n o.walk
      → I (suc n) (after_send n o s)

module _ (world : World) (plan : Plan)
    (K : OptionStrategyIntent → Option BrokerOrderSnapshot → Type 0) (I : ℕ → Walk → Type 0)
    (shows : Shows K world) (keeps : Keeps world plan K I) where
  abbrev Left : ℕ → Exit → Type 0
  Left n = Leaves (I (suc n))

  pub credited_same :
      (w : Working) (look : Option BrokerOrderSnapshot) → (credited_with w look).intent ≡ w.intent
  credited_same w none = refl
  credited_same w (some seen) = refl

  pub poll-keeps :
      (n : ℕ) (looks : List (Option BrokerOrderSnapshot)) (walk : Walk) (w : Working)
      (look : Option BrokerOrderSnapshot)
      → walk.working ≡ some w
      → K w.intent look
      → All (K w.intent) looks
      → I n walk
      → I n (poll walk w look looks).walk
  unfolding poll
  poll-keeps n [] walk w look holds seen later i = keeps.looked n walk w look holds seen i
  poll-keeps n (next ∷ looks) walk w look holds seen later i = elim (Bool-cases (is_done look)) [
    | inl e ↦ rw (e, poll) (keeps.looked n walk w look holds seen i)
    | inr e ↦
        rw (e, poll)
          (poll-keeps n looks (harvest walk w look) (credited_with w look) next refl
            (subst (λ (x : OptionStrategyIntent). K x next) (sym (credited_same w look)) later.0)
            (subst (λ (x : OptionStrategyIntent). All (K x) looks) (sym (credited_same w look))
              later.1)
            (keeps.looked n walk w look holds seen i))
  ]

  pub settle-keeps :
      (n : ℕ) (walk : Walk) (w : Working) (c : Cancelling)
      → walk.working ≡ some w
      → K w.intent c.first
      → All (K w.intent) c.rest
      → I n walk
      → I n (settle walk w c).walk
  unfolding settle
  settle-keeps n walk w c holds first rest i = elim (Bool-cases c.accepted) [
    | inl e ↦ rw e (poll-keeps n c.rest walk w c.first holds first rest i)
    | inr e ↦ rw e i
  ]

  -- Cancelling the order of a walk, after one more look at it.
  pub settled-keeps :
      (n : ℕ) (walk seen : Walk) (w : Working) (look : Option BrokerOrderSnapshot) (c : Cancelling)
      → seen.working ≡ some (credited_with w look)
      → K w.intent c.first
      → All (K w.intent) c.rest
      → I n seen
      → I n (settle seen (credited_with w look) c).walk
  settled-keeps n walk seen w look c holds first rest i =
      settle-keeps n seen (credited_with w look) c holds
        (subst (λ (x : OptionStrategyIntent). K x c.first) (sym (credited_same w look)) first)
        (subst (λ (x : OptionStrategyIntent). All (K x) c.rest) (sym (credited_same w look)) rest) i
