-- ===== src/Walk/Run.antt =====
-- engine/src/engine/options/walk.py: the loop of `run`, and what follows it.
use ibkr_strategy_engine.Prelude.{
  ℕ, zero, suc, ◌-◌, ◌*◌, ltb, leb, ◌&&◌, String, Option, none, some, List, [], if◌then◌else◌,
}
use ibkr_strategy_engine.Prelude.Result.{Result, ok, err}
use ibkr_strategy_engine.Domain.Legs.{OptionStrategyIntent}
use ibkr_strategy_engine.Governor.Policy.{scale}
use ibkr_strategy_engine.Pricing.{tick_regime_for}
use ibkr_strategy_engine.Pricing.Ladder.{PriceEnvelope, PriceLadder}
use ibkr_strategy_engine.Walk.{WalkPolicy, envelope_for, floor_for}
use ibkr_strategy_engine.Walk.Orders.{
  WalkState, WalkAttempt, Working, Walk, credited_with, harvest, drop, is_full, Settlement, settle,
}
use ibkr_strategy_engine.Walk.Rung.{World, Plan, WalkError, Exit}
use ibkr_strategy_engine.Walk.Steps.{rung, partial_or}

-- The loop, with so many rungs to go, and its `else`.
unfoldable pub rungs : World → Plan → ℕ → ℕ → Walk → Exit
unfolding rung
rungs world plan zero n walk = Exit.leave WalkState.exhausted walk
rungs world plan (suc more) n walk = elim (rung world plan n walk) [
  | err exit ↦ exit
  | ok next ↦ rungs world plan more (suc n) next
]

-- `working` is the order that the walk holds when it returns, and `let_go` those that it has held before.
pub record WalkOutcome : Type 0 where
  pub strategy_id : String
  pub state : WalkState
  pub ordered : ℕ
  pub filled : ℕ
  pub attempts : List WalkAttempt
  pub envelope : PriceEnvelope
  pub ladder : Option PriceLadder
  pub released : ℕ
  pub working : Option Working
  pub let_go : List Working

-- `finish`
abbrev pub outcome : Plan → WalkState → Walk → ℕ → WalkOutcome
outcome plan state walk released = record {
  strategy_id = plan.intent.strategy_id;
  state = state;
  ordered = plan.intent.quantity;
  filled = walk.filled;
  attempts = walk.attempts;
  envelope = plan.envelope;
  ladder = walk.ladder;
  released = released;
  working = walk.working;
  let_go = walk.let_go;
}

-- The last state, by what is filled.
abbrev pub closing_state : Plan → WalkState → Walk → WalkState
closing_state plan state walk =
    if ltb 0 walk.filled && ltb walk.filled (plan.intent.quantity * scale)
    then WalkState.partially_filled
    else if leb (plan.intent.quantity * scale) walk.filled
    then WalkState.filled
    else state

unfoldable pub release : Plan → WalkState → Settlement → WalkOutcome
release plan state s =
    if s.confirmed
    then outcome plan (closing_state plan state s.walk) (drop s.walk)
        (plan.intent.quantity * scale - s.walk.filled)
    else outcome plan (partial_or WalkState.uncertain s.walk) s.walk 0

-- The walk is over: whatever still rests is pulled.
unfoldable pub pull : World → Plan → WalkState → Walk → Option Working → WalkOutcome
unfolding settle release
pull world plan state walk none = outcome plan (closing_state plan state walk) walk 0
pull world plan state walk (some w) =
    let look = world.last_look w.intent in
    let seen = harvest walk w look in
    let s = settle seen (credited_with w look) (world.last_cancelling w.intent) in
    if is_full plan.intent.quantity seen
    then outcome plan WalkState.filled seen 0
    else if is_full plan.intent.quantity s.walk
    then outcome plan WalkState.filled s.walk 0
    else release plan state s

unfoldable pub ending : World → Plan → Exit → Result WalkError WalkOutcome
unfolding pull
ending world plan (Exit.raised cause) = err cause
ending world plan (Exit.finish state walk) = ok (outcome plan state walk 0)
ending world plan (Exit.leave state walk) = ok (pull world plan state walk walk.working)

abbrev pub initial : Walk
initial = record { filled = 0; attempts = []; ladder = none; working = none; let_go = [] }

abbrev pub plan_of : WalkPolicy → OptionStrategyIntent → Plan
plan_of policy intent = record {
  intent = intent;
  envelope = envelope_for intent;
  floor = floor_for policy intent;
  regime = tick_regime_for intent.underlying;
}

-- `PriceWalk.run`
unfoldable pub run : World → WalkPolicy → OptionStrategyIntent → Result WalkError WalkOutcome
unfolding envelope_for floor_for tick_regime_for rungs ending
run world policy intent =
    let plan = plan_of policy intent in
    ending world plan (rungs world plan policy.maximum_attempts 0 initial)
