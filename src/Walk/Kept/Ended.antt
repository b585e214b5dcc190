-- ===== src/Walk/Kept/Ended.antt =====
-- engine/src/engine/options/walk.py: what every step of `run` keeps holds of the walk that it returns with.
use ibkr_strategy_engine.Prelude.{
  ℕ, ◌≡◌, refl, subst, inl, inr, arith, Bool-cases, List, [], ◌∷◌, All, Bool, true, false,
  if◌then◌else◌, Option, none, some, ◌*◌, ◌-◌,
}
use ibkr_strategy_engine.Prelude.Result.{ok, ok-injective}
use ibkr_strategy_engine.Governor.Policy.{scale}
use ibkr_strategy_engine.Domain.Legs.{OptionStrategyIntent}
use ibkr_strategy_engine.Walk.{WalkPolicy}
use ibkr_strategy_engine.Walk.Orders.{
  BrokerOrderSnapshot, WalkState, Working, Walk, credited_with, harvest, drop, is_full, Settlement,
  settle,
}
use ibkr_strategy_engine.Walk.Rung.{World, Plan, Exit}
use ibkr_strategy_engine.Walk.Steps.{partial_or}
use ibkr_strategy_engine.Walk.Run.{
  WalkOutcome, outcome, closing_state, release, pull, ending, rungs, initial, plan_of, run,
}
use ibkr_strategy_engine.Walk.Kept.{Leaves, IsDead, settle-IsDead, Shows, Keeps, settled-keeps}
use ibkr_strategy_engine.Walk.Kept.Sending.{rungs-keeps}

-- The outcome is that of a walk of which it holds.
pub record Ended (plan : Plan) (J : Walk → Type 0) (out : WalkOutcome) : Type 0 where
  pub state : WalkState
  pub walk : Walk
  pub released : ℕ
  pub is_outcome : out ≡ outcome plan state walk released
  pub kept : J walk

-- Nothing is asked of the looks.
abbrev pub IsAny : OptionStrategyIntent → Option BrokerOrderSnapshot → Type 0
IsAny intent look = Unit

All-IsAny :
    (intent : OptionStrategyIntent) (looks : List (Option BrokerOrderSnapshot))
    → All (IsAny intent) looks
All-IsAny intent [] = tt
All-IsAny intent (look ∷ looks) = (tt, All-IsAny intent looks)

pub IsAny-shown : (world : World) → Shows IsAny world
IsAny-shown world = record {
  look = λ n i. tt;
  look_again = λ n i. tt;
  first = λ n i. tt;
  rest = λ n i. All-IsAny i (world.cancelling n i).rest;
  sent = λ n i s e. tt;
  last_look = λ i. tt;
  last_first = λ i. tt;
  last_rest = λ i. All-IsAny i (world.last_cancelling i).rest;
}

if-keeps : {A : Type 0} (P : A → Type 0) (b : Bool) (x y : A) → P x → P y → P (if b then x else y)
if-keeps P true x y h k = h
if-keeps P false x y h k = k

module _ (world : World) (plan : Plan)
    (K : OptionStrategyIntent → Option BrokerOrderSnapshot → Type 0) (I : ℕ → Walk → Type 0)
    (shows : Shows K world) (keeps : Keeps world plan K I) where
  ended :
      (n : ℕ) (state : WalkState) (walk : Walk) (released : ℕ)
      → I n walk
      → Ended plan (I n) (outcome plan state walk released)
  ended n state walk released i = record {
    state = state;
    walk = walk;
    released = released;
    is_outcome = refl;
    kept = i;
  }

  release-keeps :
      (n : ℕ) (state : WalkState) (s : Settlement)
      → (s.confirmed ≡ true → IsDead s.walk)
      → I n s.walk
      → Ended plan (I n) (release plan state s)
  unfolding release
  release-keeps n state s dead i = elim (Bool-cases s.confirmed) [
    | inl e ↦ rw e (
        ended n (closing_state plan state s.walk) (drop s.walk)
          (plan.intent.quantity * scale - s.walk.filled) (keeps.dropped n s.walk (dead e) i))
    | inr e ↦ rw e (ended n (partial_or WalkState.uncertain s.walk) s.walk 0 i)
  ]

  pull-keeps :
      (n : ℕ) (state : WalkState) (walk : Walk) (o : Option Working)
      → walk.working ≡ o
      → I n walk
      → Ended plan (I n) (pull world plan state walk o)
  unfolding pull
  pull-keeps n state walk none e i = ended n (closing_state plan state walk) walk 0 i
  pull-keeps n state walk (some w) e i =
      let look = world.last_look w.intent in
      let seen = harvest walk w look in
      let j = keeps.looked n walk w look e (shows.last_look w.intent) i in
      let s = settle seen (credited_with w look) (world.last_cancelling w.intent) in
      let k =
        settled-keeps world plan K I shows keeps n walk seen w look (world.last_cancelling w.intent)
          refl (shows.last_first w.intent) (shows.last_rest w.intent) j in
      if-keeps (Ended plan (I n)) (is_full plan.intent.quantity seen) _ _
        (ended n WalkState.filled seen 0 j)
        (if-keeps (Ended plan (I n)) (is_full plan.intent.quantity s.walk) _ _
          (ended n WalkState.filled s.walk 0 k)
          (release-keeps n state s
            (settle-IsDead seen (credited_with w look) (world.last_cancelling w.intent)) k))

  ending-keeps :
      (n : ℕ) (exit : Exit) (out : WalkOutcome)
      → Leaves (I n) exit
      → ending world plan exit ≡ ok out
      → Ended plan (I n) out
  unfolding ending
  ending-keeps n (Exit.raised cause) out i h = absurd (cc h)
  ending-keeps n (Exit.leave state walk) out i h =
      subst (λ (x : WalkOutcome). Ended plan (I n) x) (ok-injective h)
        (pull-keeps n state walk walk.working refl i)
  ending-keeps n (Exit.finish state walk) out i h =
      subst (λ (x : WalkOutcome). Ended plan (I n) x) (ok-injective h) (ended n state walk 0 i)

pub run-keeps :
    (world : World) (policy : WalkPolicy) (intent : OptionStrategyIntent)
    (K : OptionStrategyIntent → Option BrokerOrderSnapshot → Type 0) (I : ℕ → Walk → Type 0)
    (out : WalkOutcome)
    → Shows K world
    → Keeps world (plan_of policy intent) K I
    → I 0 initial
    → run world policy intent ≡ ok out
    → Ended (plan_of policy intent) (I policy.maximum_attempts) out
unfolding run
run-keeps world policy intent K I out shows keeps i h =
    let plan = plan_of policy intent in
    let n = policy.maximum_attempts in
    ending-keeps world plan K I shows keeps n (rungs world plan n 0 initial) out
      (rungs-keeps world plan K I shows keeps n n 0 initial (omega arith) i) h
