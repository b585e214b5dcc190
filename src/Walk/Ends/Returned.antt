-- ===== src/Walk/Ends/Returned.antt =====
-- engine/src/engine/options/walk.py: the state of every `finish` and of the last lines of `run`.
use ibkr_strategy_engine.Prelude.{
  ℕ, ◌≤◌, List, [], ◌∷◌, ltb, ◌&&◌, ◌+◌, ◌*◌, leb, ◌≡◌, refl, subst, arith, Bool, true, false,
  Bool-cases, inl, inr, ◌⊎◌, Option, none, some, if◌then◌else◌,
}
use ibkr_strategy_engine.Prelude.Result.{ok, ok-injective}
use ibkr_strategy_engine.Governor.Policy.{scale}
use ibkr_strategy_engine.Domain.Legs.{OptionStrategyIntent}
use ibkr_strategy_engine.Walk.{WalkPolicy}
use ibkr_strategy_engine.Walk.Orders.{
  BrokerOrderSnapshot, WalkState, Working, Walk, credited_with, harvest, is_full, Settlement,
  Cancelling, poll, settle, is_done,
}
use ibkr_strategy_engine.Walk.Rung.{World, Plan, Exit}
use ibkr_strategy_engine.Walk.Run.{
  rungs, WalkOutcome, outcome, closing_state, release, pull, ending, initial, plan_of, run,
}
use ibkr_strategy_engine.Walk.Ends.{Agrees, IsOver, partial-Agrees, total, Tidy, IsShort}
use ibkr_strategy_engine.Walk.Ends.Rungs.{rungs-Tidy}

-- The order that the walk holds when the loop is left.
abbrev pub in_hand : Exit → Option Working
in_hand (Exit.raised cause) = none
in_hand (Exit.leave state walk) = walk.working
in_hand (Exit.finish state walk) = walk.working

-- There is nothing to release: no order was held when the loop ended, or one still is that has not been seen
-- dead, or everything is filled.
abbrev pub NothingFreed : Exit → WalkOutcome → Type 0
NothingFreed exit out =
    (in_hand exit ≡ none)
    ⊎ ((w : Working) × (out.working ≡ some w))
    ⊎ (out.ordered * scale ≤ out.filled)

-- The state says how much is filled; what is released is what is not, and then nothing is held any more.
pub record IsSettled (exit : Exit) (out : WalkOutcome) : Type 0 where
  pub agrees : Agrees (out.ordered * scale) out.state out.filled
  pub freed :
      ((out.released ≡ 0) × NothingFreed exit out)
      ⊎ ((out.released + out.filled ≡ out.ordered * scale) × (out.working ≡ none))

over_Agrees :
    (t f : ℕ) (state : WalkState) (some_filled short full : Bool)
    → ltb 0 f ≡ some_filled
    → ltb f t ≡ short
    → leb t f ≡ full
    → IsOver state
    → Agrees t
        (if some_filled && short
          then WalkState.partially_filled
          else if full
          then WalkState.filled
          else state)
        f
over_Agrees t f state true true full a b c over = ground arith
over_Agrees t f state true false true a b c over = ground arith
over_Agrees t f state true false false a b c over = absurd (ground arith)
over_Agrees t f state false short true a b c over = ground arith
over_Agrees t f WalkState.refused false short false a b c over = ground arith
over_Agrees t f WalkState.exhausted false short false a b c over = ground arith
over_Agrees t f WalkState.filled false short false a b c over = elim over [ ]
over_Agrees t f WalkState.partially_filled false short false a b c over = elim over [ ]
over_Agrees t f WalkState.uncertain false short false a b c over = elim over [ ]

module _ (world : World) (plan : Plan) where
  closing-Agrees :
      (state : WalkState) (walk : Walk)
      → IsOver state
      → Agrees (total plan) (closing_state plan state walk) walk.filled
  closing-Agrees state walk over =
      over_Agrees (total plan) walk.filled state (ltb 0 walk.filled) (ltb walk.filled (total plan))
        (leb (total plan) walk.filled) refl refl refl over

  poll-holds :
      (walk : Walk) (w : Working) (look : Option BrokerOrderSnapshot)
      (rest : List (Option BrokerOrderSnapshot))
      → (x : Working) × ((poll walk w look rest).walk.working ≡ some x)
  unfolding poll
  poll-holds walk w look [] = (credited_with w look, refl)
  poll-holds walk w look (later ∷ looks) = elim (Bool-cases (is_done look)) [
    | inl e ↦ rw (e, poll) (credited_with w look, refl)
    | inr e ↦ rw (e, poll) (poll-holds (harvest walk w look) (credited_with w look) later looks)
  ]

  settle-holds :
      (walk : Walk) (w : Working) (c : Cancelling)
      → walk.working ≡ some w
      → (x : Working) × ((settle walk w c).walk.working ≡ some x)
  unfolding settle
  settle-holds walk w c h = elim (Bool-cases c.accepted) [
    | inl e ↦ rw e (poll-holds walk w c.first c.rest)
    | inr e ↦ rw e (w, h)
  ]

  release-IsSettled :
      (exit : Exit) (state : WalkState) (s : Settlement)
      → IsOver state
      → IsShort plan s.walk
      → ((x : Working) × (s.walk.working ≡ some x))
      → IsSettled exit (release plan state s)
  unfolding release
  release-IsSettled exit state s over short holds = elim (Bool-cases s.confirmed) [
    | inl e ↦
        rw e
          (record { agrees = closing-Agrees state s.walk over; freed = inr (ground arith, refl) })
    | inr e ↦ rw e (record {
      agrees = partial-Agrees (total plan) WalkState.uncertain s.walk (λ f h. h) short;
      freed = inl (refl, inr (inl holds));
    })
  ]

  filled_or :
      (exit : Exit) (b : Bool) (walk : Walk) (otherwise : WalkOutcome)
      → is_full plan.intent.quantity walk ≡ b
      → (is_full plan.intent.quantity walk ≡ false → IsSettled exit otherwise)
      → IsSettled exit (if b then outcome plan WalkState.filled walk 0 else otherwise)
  filled_or exit true walk otherwise e k = record {
    agrees = ground arith;
    freed = inl (refl, inr (inr (ground arith)));
  }
  filled_or exit false walk otherwise e k = k e

  pull-IsSettled :
      (state : WalkState) (walk : Walk) (o : Option Working)
      → walk.working ≡ o
      → IsOver state
      → IsSettled (Exit.leave state walk) (pull world plan state walk o)
  unfolding pull
  pull-IsSettled state walk none idle over = record {
    agrees = closing-Agrees state walk over;
    freed = inl (refl, inl idle);
  }
  pull-IsSettled state walk (some w) e over =
      let exit = Exit.leave state walk in
      let look = world.last_look w.intent in
      let seen = harvest walk w look in
      let s = settle seen (credited_with w look) (world.last_cancelling w.intent) in
      filled_or exit (is_full plan.intent.quantity seen) seen _ refl (λ short.
        filled_or exit (is_full plan.intent.quantity s.walk) s.walk _ refl (λ still.
          release-IsSettled exit state s over still
            (settle-holds seen (credited_with w look) (world.last_cancelling w.intent) refl)))

  held_or_not :
      (state : WalkState) (walk : Walk) (o : Option Working)
      → walk.working ≡ o
      → NothingFreed (Exit.finish state walk) (outcome plan state walk 0)
  held_or_not state walk none e = inl e
  held_or_not state walk (some w) e = inr (inl (w, e))

  ending-IsSettled :
      (exit : Exit) (out : WalkOutcome)
      → Tidy plan (λ _. Unit) exit
      → ending world plan exit ≡ ok out
      → IsSettled exit out
  unfolding ending
  ending-IsSettled (Exit.raised cause) out i h = absurd (cc h)
  ending-IsSettled (Exit.leave state walk) out i h =
      subst (IsSettled (Exit.leave state walk)) (ok-injective h)
        (pull-IsSettled state walk walk.working refl i)
  ending-IsSettled (Exit.finish state walk) out i h =
      subst (IsSettled (Exit.finish state walk)) (ok-injective h)
        (record { agrees = i; freed = inl (refl, held_or_not state walk walk.working refl) })

-- The state with which a walk returns says how much is filled: everything, some of it, or for the other three
-- states nothing. What it reports as released is all that is not filled, and then the walk holds no order that
-- has not been seen dead; or it is nothing, and then everything is filled, or the walk still holds such an
-- order, or it held none when its loop ended.
pub run-IsSettled :
    (world : World) (policy : WalkPolicy) (intent : OptionStrategyIntent) (out : WalkOutcome)
    → run world policy intent ≡ ok out
    → IsSettled (rungs world (plan_of policy intent) policy.maximum_attempts 0 initial) out
unfolding run
run-IsSettled world policy intent out h =
    let plan = plan_of policy intent in
    ending-IsSettled world plan (rungs world plan policy.maximum_attempts 0 initial) out
      (rungs-Tidy world plan (λ _. Unit) (λ quotes cause priced e. tt) (λ n i e. tt)
        policy.maximum_attempts 0 initial)
      h
