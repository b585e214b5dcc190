-- ===== src/Walk/Orders.antt =====
-- engine/src/engine/options/walk.py: the order that rests in the book, the counting of its fills, and its
-- cancellation. Filled amounts are in ten-thousandths of a contract.
use ibkr_strategy_engine.Prelude.{
  ℕ, ◌+◌, ◌-◌, ◌*◌, leb, ℤ, pos, pos_part, leb_ℤ, Bool, true, false, Option, none, some, List, [],
  ◌∷◌, if◌then◌else◌,
}
use ibkr_strategy_engine.Domain.Legs.{OptionStrategyIntent}
use ibkr_strategy_engine.Governor.Policy.{scale}
use ibkr_strategy_engine.OrderState.Broker.{OrderLifecycleState, is_terminal}
use ibkr_strategy_engine.Pricing.Ladder.{PriceLadder}

-- What the walk reads of a `BrokerOrderSnapshot`; `filled` is the order's running total.
pub record BrokerOrderSnapshot : Type 0 where
  pub state : OrderLifecycleState
  pub filled : ℤ

pub data WalkState : Type 0 where
  filled partially_filled exhausted refused uncertain : WalkState

pub data WalkRefusal : Type 0 where
  no_quotes not_live unpriceable outside_envelope risk_at_new_credit structure_invalid : WalkRefusal
  not_authorized send_failed cancellation_unconfirmed ladder_exhausted : WalkRefusal

pub record WalkAttempt : Type 0 where
  pub index : ℕ
  pub credit : Option ℤ
  pub quantity : ℕ
  pub sent : Bool
  pub filled_here : ℕ
  pub snapshot : Option BrokerOrderSnapshot
  pub refusal : Option WalkRefusal

-- `_Working`. The broker's ids of the order are those of its candidate.
pub record Working : Type 0 where
  pub intent : OptionStrategyIntent
  pub credited : ℕ
  pub snapshot : Option BrokerOrderSnapshot

-- The variables of `run`; `let_go` are the orders that `working` has held before, the last first.
pub record Walk : Type 0 where
  pub filled : ℕ
  pub attempts : List WalkAttempt
  pub ladder : Option PriceLadder
  pub working : Option Working
  pub let_go : List Working

-- `_count`: what a look at the order newly shows, and the order with that credited. No look, or one
-- that failed, is `none`.
abbrev pub newly_filled : Working → Option BrokerOrderSnapshot → ℕ
newly_filled w none = 0
newly_filled w (some seen) =
    if leb_ℤ seen.filled (pos w.credited) then 0 else pos_part seen.filled - w.credited

abbrev pub credited_with : Working → Option BrokerOrderSnapshot → Working
credited_with w none = w
credited_with w (some seen) = record w {
  credited = if leb_ℤ seen.filled (pos w.credited) then w.credited else pos_part seen.filled;
  snapshot = some seen;
}

-- `filled += self._count(working, snapshot)`, and `_observe` with what the broker answered.
abbrev pub harvest : Walk → Working → Option BrokerOrderSnapshot → Walk
harvest walk w look = record walk {
  filled = walk.filled + newly_filled w look;
  working = some (credited_with w look);
}

abbrev pub with_held : Option Working → List Working → List Working
with_held none orders = orders
with_held (some w) orders = w ∷ orders

-- `working = None`
abbrev pub drop : Walk → Walk
drop walk = record walk { working = none; let_go = with_held walk.working walk.let_go }

abbrev pub is_done : Option BrokerOrderSnapshot → Bool
is_done none = false
is_done (some seen) = is_terminal seen.state

-- `filled >= Decimal(ordered)`
abbrev pub is_full : ℕ → Walk → Bool
is_full ordered walk = leb (ordered * scale) walk.filled

-- `_Settlement`, with the walk as the harvest left it.
pub record Settlement : Type 0 where
  pub confirmed : Bool
  pub walk : Walk

-- The loop of `_settle`: the looks until the deadline has passed, of which there is always one.
unfoldable pub poll :
    Walk → Working → Option BrokerOrderSnapshot → List (Option BrokerOrderSnapshot) → Settlement
poll walk w look [] = record { confirmed = is_done look; walk = harvest walk w look }
poll walk w look (later ∷ looks) = elim (is_done look) [
  | true ↦ record { confirmed = true; walk = harvest walk w look }
  | false ↦ poll (harvest walk w look) (credited_with w look) later looks
]

-- How the broker takes a cancellation: whether the request went through, and what it then shows.
pub record Cancelling : Type 0 where
  pub accepted : Bool
  pub first : Option BrokerOrderSnapshot
  pub rest : List (Option BrokerOrderSnapshot)

-- `_settle`: a request that fails is not confirmed.
unfoldable pub settle : Walk → Working → Cancelling → Settlement
unfolding poll
settle walk w c =
    if c.accepted then poll walk w c.first c.rest else record { confirmed = false; walk = walk }
