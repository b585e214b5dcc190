-- ===== src/Walk/Fills.antt =====
-- engine/src/engine/options/walk.py: how many contracts a walk can come to hold.
use ibkr_strategy_engine.Prelude.{
  ℕ, suc, ◌+◌, ◌-◌, ◌*◌, ◌≤◌, pos, pos_part, leb_ℤ, ◌≡◌, refl, sum_by, true, All, sym, subst, ◌/◌,
  arith, Bool-cases, inl, inr, Option, none, some,
}
use ibkr_strategy_engine.Prelude.Result.{ok}
use ibkr_strategy_engine.Governor.Policy.{scale}
use ibkr_strategy_engine.Domain.Legs.{OptionStrategyIntent}
use ibkr_strategy_engine.Walk.{WalkPolicy}
use ibkr_strategy_engine.Walk.Orders.{
  BrokerOrderSnapshot, Working, Walk, newly_filled, credited_with, harvest, drop, is_done,
}
use ibkr_strategy_engine.Walk.Rung.{World, Plan, Offer}
use ibkr_strategy_engine.Walk.Steps.{working_on, after_send}
use ibkr_strategy_engine.Walk.Run.{WalkOutcome, initial, plan_of, run}
use ibkr_strategy_engine.Walk.Repriced.{reprice_ok}
use ibkr_strategy_engine.Walk.Kept.{IsDead, Shows, Keeps, IsOffer}
use ibkr_strategy_engine.Walk.Kept.Ended.{run-keeps}

-- A look at an order never shows more filled than was ordered.
abbrev pub IsWithin : OptionStrategyIntent → Option BrokerOrderSnapshot → Type 0
IsWithin intent none = Unit
IsWithin intent (some seen) = pos_part seen.filled ≤ intent.quantity * scale

-- What the order that a walk holds may still fill.
abbrev pub still_open : Option Working → ℕ
still_open none = 0
still_open (some w) = w.intent.quantity * scale - w.credited

abbrev IsCredited : Option Working → Type 0
IsCredited none = Unit
IsCredited (some w) = w.credited ≤ w.intent.quantity * scale

-- What has been counted of the order that a walk holds.
abbrev pub credited_of : Option Working → ℕ
credited_of none = 0
credited_of (some w) = w.credited

record IsCovered (plan : Plan) (n : ℕ) (walk : Walk) : Type 0 where
  held : IsCredited walk.working
  counted : walk.filled ≡ sum_by (λ w. w.credited) walk.let_go + credited_of walk.working
  dead : All (λ w. is_done w.snapshot ≡ true) walk.let_go
  within : walk.filled + still_open walk.working ≤ plan.intent.quantity * scale

counted_more :
    (filled before : ℕ) (w : Working) (look : Option BrokerOrderSnapshot)
    → filled ≡ before + w.credited
    → filled + newly_filled w look ≡ before + (credited_with w look).credited
counted_more filled before w none e = omega arith
counted_more filled before w (some seen) e =
    elim (Bool-cases (leb_ℤ seen.filled (pos w.credited))) [
      | inl d ↦ rw d (omega arith)
      | inr d ↦ rw d (ground arith)
    ]

looked_covers :
    (total filled : ℕ) (w : Working) (look : Option BrokerOrderSnapshot)
    → IsWithin w.intent look
    → w.credited ≤ w.intent.quantity * scale
    → filled + still_open (some w) ≤ total
    → IsCredited (some (credited_with w look))
      × (filled + newly_filled w look + still_open (some (credited_with w look)) ≤ total)
looked_covers total filled w none within credited bound = (credited, omega arith)
looked_covers total filled w (some seen) within credited bound =
    elim (Bool-cases (leb_ℤ seen.filled (pos w.credited))) [
      | inl e ↦ rw e (credited, omega arith)
      | inr e ↦ rw e (within, ground arith)
    ]

module _ (world : World) (plan : Plan) where
  looked-IsCovered :
      (n : ℕ) (walk : Walk) (w : Working) (look : Option BrokerOrderSnapshot)
      → walk.working ≡ some w
      → IsWithin w.intent look
      → IsCovered plan n walk
      → IsCovered plan n (harvest walk w look)
  looked-IsCovered n walk w look e seen i =
      let (held, within) =
        looked_covers (plan.intent.quantity * scale) walk.filled w look seen
          (subst IsCredited e i.held)
          (subst (λ (o : Option Working). walk.filled + still_open o ≤ plan.intent.quantity * scale)
            e i.within) in
      record {
        held = held;
        counted = counted_more walk.filled (sum_by (λ w. w.credited) walk.let_go) w look (
            subst
              (λ (o : Option Working).
                walk.filled ≡ sum_by (λ w. w.credited) walk.let_go + credited_of o)
              e i.counted);
        dead = i.dead;
        within = within;
      }

  -- The order that is offered fits into what remains.
  fits :
      (ordered filled quantity size : ℕ)
      → size ≡ quantity
      → quantity ≡ (ordered * scale - filled) / scale
      → filled + 0 ≤ ordered * scale
      → filled + (size * scale - 0) ≤ ordered * scale
  fits ordered filled quantity size e f h = omega arith

  offered-IsCovered :
      (n : ℕ) (o : Offer) (s : Option BrokerOrderSnapshot)
      → IsOffer world plan n o
      → o.walk.working ≡ none
      → IsWithin o.candidate s
      → IsCovered plan n o.walk
      → IsCovered plan (suc n) (after_send n o s)
  offered-IsCovered n o s is idle seen i =
      let (size, _, _) = reprice_ok plan.intent o.candidate (pos o.credit) o.quantity is.priced in
      let before =
        subst (λ (x : Option Working). o.walk.filled + still_open x ≤ plan.intent.quantity * scale)
          idle i.within in
      let (held, within) =
        looked_covers (plan.intent.quantity * scale) o.walk.filled (working_on o.candidate) s seen
          (omega arith)
          (fits plan.intent.quantity o.walk.filled o.quantity o.candidate.quantity size is.sized
            before) in
      record {
        held = held;
        counted =
            counted_more o.walk.filled (sum_by (λ w. w.credited) o.walk.let_go)
              (working_on o.candidate) s
              (subst
                (λ (x : Option Working).
                  o.walk.filled ≡ sum_by (λ w. w.credited) o.walk.let_go + credited_of x)
                idle i.counted);
        dead = i.dead;
        within = within;
      }

  dropped-IsCovered :
      (n : ℕ) (walk : Walk) → IsDead walk → IsCovered plan n walk → IsCovered plan n (drop walk)
  dropped-IsCovered n walk (w, e, last) i =
      let counted =
        subst
          (λ (o : Option Working).
            walk.filled ≡ sum_by (λ w. w.credited) walk.let_go + credited_of o)
          e i.counted in
      let within = i.within in
      rw e
        (record { held = tt; counted = omega arith; dead = (last, i.dead); within = omega arith })

  IsCovered-kept : Keeps world plan IsWithin (IsCovered plan)
  IsCovered-kept = record {
    looked = looked-IsCovered;
    laddered = λ n walk l i. record {
      held = i.held;
      counted = i.counted;
      dead = i.dead;
      within = i.within;
    };
    dropped = dropped-IsCovered;
    skipped =
        λ n walk i. record { held = i.held; counted = i.counted; dead = i.dead; within = i.within };
    refused = λ n walk a e i. record {
      held = i.held;
      counted = i.counted;
      dead = i.dead;
      within = i.within;
    };
    offered = λ n o s is granted idle k i. offered-IsCovered n o s is idle k i;
  }

-- What is filled is what was counted of each order that was sent, every one of which but the last was seen
-- dead before the next, and together with what the order that is still held may fill it is at most the entry.
pub record IsAccounted (out : WalkOutcome) : Type 0 where
  pub counted : out.filled ≡ sum_by (λ w. w.credited) out.let_go + credited_of out.working
  pub dead : All (λ w. is_done w.snapshot ≡ true) out.let_go
  pub within : out.filled + still_open out.working ≤ out.ordered * scale

-- Where a look at an order never shows more filled than was ordered, a walk that returns has let go of no
-- order that it has not seen dead; what it has filled is the sum of what each of its orders was last credited
-- with; and that and what the order that it still holds may fill are together at most what the entry asked for.
pub never_overfills :
    (world : World) (policy : WalkPolicy) (intent : OptionStrategyIntent) (out : WalkOutcome)
    → Shows IsWithin world
    → run world policy intent ≡ ok out
    → IsAccounted out
never_overfills world policy intent out shows h =
    let plan = plan_of policy intent in
    let start : IsCovered plan 0 initial = record {
      held = tt;
      counted = refl;
      dead = tt;
      within = omega arith;
    } in
    let e =
      run-keeps world policy intent IsWithin (IsCovered plan) out shows (IsCovered-kept world plan)
        start h in
    subst IsAccounted (sym e.is_outcome)
      (record { counted = e.kept.counted; dead = e.kept.dead; within = e.kept.within })
