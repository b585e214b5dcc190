-- ===== src/Walk/Rung.antt =====
-- engine/src/engine/options/walk.py: one rung of `run`. What the market data, the broker, the reverifier and
-- `authorize_open` and `place_combo` of transmit.py answer is a `World`, by the number of the rung.
use ibkr_strategy_engine.Prelude.{
  ℕ, zero, suc, ◌-◌, ◌*◌, ◌/◌, ℤ, pos, Bool, true, false, not, ◌&&◌, String, Option, none, some,
  is_some, List, [], ◌∷◌, ◌++◌, all, if◌then◌else◌,
}
use ibkr_strategy_engine.Prelude.Result.{Result, ok, err, ◌>>◌, refuse_if}
use ibkr_strategy_engine.Domain.Legs.{OptionStrategyIntent}
use ibkr_strategy_engine.Governor.Policy.{scale}
use ibkr_strategy_engine.Pricing.{PricingError, TickRegime, OptionQuote}
use ibkr_strategy_engine.Pricing.Ladder.{PriceEnvelope, PriceLadder, ladder_fractions, build_ladder}
use ibkr_strategy_engine.Quotes.{Liveness, is_live}
use ibkr_strategy_engine.Walk.{contains}
use ibkr_strategy_engine.Walk.Orders.{
  BrokerOrderSnapshot, WalkState, WalkRefusal, WalkAttempt, Working, Walk, harvest, is_full,
  Cancelling,
}

pub record LiveQuote : Type 0 where
  pub quote : OptionQuote
  pub liveness : Liveness

-- The evidence is whether the assessment and the verdict that it carries approved.
pub record Reverification : Type 0 where
  pub approved : Bool
  pub risk : Option Bool
  pub governor : Option Bool
  pub refusals : List String

pub data ReverificationError : Type 0 where
  silent_refusal evidence_missing evidence_refused refusals_carried : ReverificationError

abbrev pub is_quiet : List String → Bool
is_quiet [] = true
is_quiet _ = false

abbrev pub granted : Option Bool → Bool
granted none = false
granted (some b) = b

-- `Reverification.__post_init__`
unfoldable pub make_reverification : Reverification → Result ReverificationError Reverification
make_reverification v =
    if v.approved
    then (do
      refuse_if (not (is_some v.risk && is_some v.governor)) ReverificationError.evidence_missing
      refuse_if (not (granted v.risk && granted v.governor)) ReverificationError.evidence_refused
      refuse_if (not (is_quiet v.refusals)) ReverificationError.refusals_carried
      ok v)
    else (do refuse_if (is_quiet v.refusals) ReverificationError.silent_refusal; ok v)

-- `authorize_open` returns, raises an `EngineError`, or raises another exception, which `run` does not handle.
pub data Authorization : Type 0 where
  authorizes refuses escapes : Authorization

-- A look at an order is by the order, whose ids stand for it; `none` is no answer. `reverify` is given as
-- what it constructs, `true` for the second call of a rung; `none` is an exception, also of `send`. `on_fill` and
-- `on_release` are taken to return.
pub record World : Type 0 where
  pub look : ℕ → OptionStrategyIntent → Option BrokerOrderSnapshot
  pub look_again : ℕ → OptionStrategyIntent → Option BrokerOrderSnapshot
  pub cancelling : ℕ → OptionStrategyIntent → Cancelling
  pub quotes : ℕ → Option (List LiveQuote)
  pub reverify : ℕ → Bool → OptionStrategyIntent → Option Reverification
  pub authorize : ℕ → OptionStrategyIntent → Authorization
  pub send : ℕ → OptionStrategyIntent → Option (Option BrokerOrderSnapshot)
  pub last_look : OptionStrategyIntent → Option BrokerOrderSnapshot
  pub last_cancelling : OptionStrategyIntent → Cancelling

-- The constants of a walk.
pub record Plan : Type 0 where
  pub intent : OptionStrategyIntent
  pub envelope : PriceEnvelope
  pub floor : ℤ
  pub regime : TickRegime

-- The exceptions that leave `run`.
pub data WalkError : Type 0 where
  pricing : PricingError → WalkError
  escaped : WalkError

-- How the loop is left: by an exception, a `break` or a `return finish`.
pub data Exit : Type 0 where
  raised : WalkError → Exit
  leave : WalkState → Walk → Exit
  finish : WalkState → Walk → Exit

-- The order about to be offered, and the walk so far.
pub record Offer : Type 0 where
  pub walk : Walk
  pub credit : ℕ
  pub quantity : ℕ
  pub candidate : OptionStrategyIntent

abbrev pub add_attempt : WalkAttempt → Walk → Walk
add_attempt a walk = record walk { attempts = walk.attempts ++ a ∷ [] }

-- The attempt that is recorded where nothing is sent.
abbrev pub unsent : ℕ → Option ℤ → ℕ → WalkRefusal → WalkAttempt
unsent n credit quantity cause = record {
  index = suc n;
  credit = credit;
  quantity = quantity;
  sent = false;
  filled_here = 0;
  snapshot = none;
  refusal = some cause;
}

abbrev pub leaving : WalkState → Walk → ℕ → Option ℤ → ℕ → WalkRefusal → Exit
leaving state walk n credit quantity cause =
    Exit.leave state (add_attempt (unsent n credit quantity cause) walk)

-- `if filled >= Decimal(ordered): return finish(WalkState.FILLED)`
unfoldable pub check_full : Plan → Walk → Result Exit Walk
check_full plan walk =
    if is_full plan.intent.quantity walk then err (Exit.finish WalkState.filled walk) else ok walk

unfoldable pub look_at :
    Plan
    → Walk
    → Option Working
    → (OptionStrategyIntent → Option BrokerOrderSnapshot)
    → Result Exit Walk
unfolding check_full
look_at plan walk none look = ok walk
look_at plan walk (some w) look = check_full plan (harvest walk w (look w.intent))

-- `int(Decimal(ordered) - filled)`
abbrev pub remaining : Plan → Walk → ℕ
remaining plan walk = (plan.intent.quantity * scale - walk.filled) / scale

abbrev pub quotes_of : List LiveQuote → List OptionQuote
quotes_of [] = []
quotes_of (q ∷ quotes) = q.quote ∷ quotes_of quotes

-- `livenesses == {Liveness.LIVE}`
unfoldable pub is_uniformly_live : List LiveQuote → Bool
is_uniformly_live [] = false
is_uniformly_live (q ∷ quotes) = all (λ other. is_live other.liveness) (q ∷ quotes)

-- `_fresh_quotes`
unfoldable pub fresh_quotes : Option (List LiveQuote) → Result WalkRefusal (List OptionQuote)
unfolding is_uniformly_live
fresh_quotes none = err WalkRefusal.no_quotes
fresh_quotes (some quotes) =
    if is_uniformly_live quotes then ok (quotes_of quotes) else err WalkRefusal.not_live

-- A refusal that is recorded with a credit, and ends the loop.
unfoldable pub or_leave :
    {A : Type 0} → Walk → ℕ → Option ℤ → ℕ → Result WalkRefusal A → Result Exit A
or_leave walk n credit quantity (ok value) = ok value
or_leave walk n credit quantity (err cause) =
    err (leaving WalkState.refused walk n credit quantity cause)

unfoldable pub check_price : Plan → Walk → ℕ → ℤ → Result Exit Unit
check_price plan walk n price = refuse_if (not (contains plan.envelope price)) (
    leaving WalkState.refused walk n (some price) (remaining plan walk)
      WalkRefusal.outside_envelope)

unfoldable pub check_midpoint : Plan → Walk → ℕ → Option ℤ → Result Exit Unit
unfolding check_price
check_midpoint plan walk n none =
    err (leaving WalkState.refused walk n none (remaining plan walk) WalkRefusal.unpriceable)
check_midpoint plan walk n (some observed) = check_price plan walk n observed

unfoldable pub rung_at : List ℕ → ℕ → Option ℕ
rung_at [] n = none
rung_at (rung ∷ rungs) zero = some rung
rung_at (rung ∷ rungs) (suc n) = rung_at rungs n

unfoldable pub from_pricing : Walk → Result PricingError (Option PriceLadder) → Result Exit Walk
from_pricing walk (err cause) = err (Exit.raised (WalkError.pricing cause))
from_pricing walk (ok ladder) = ok (record walk { ladder = ladder })

-- `build_ladder` in this book.
abbrev pub ladder_of : Plan → List OptionQuote → Result PricingError (Option PriceLadder)
ladder_of plan quotes =
    build_ladder plan.intent.price_effect plan.intent.legs plan.intent.underlying (some quotes)
      plan.envelope plan.floor (some plan.regime) ladder_fractions

-- `ladder.rungs[index]`, where there is a ladder that has it.
unfoldable pub take_rung : Plan → Walk → ℕ → Option ℕ → Result Exit ℕ
unfolding check_price
take_rung plan walk n none =
    err (leaving WalkState.exhausted walk n none (remaining plan walk) WalkRefusal.ladder_exhausted)
take_rung plan walk n (some credit) = do check_price plan walk n (pos credit); ok credit

unfoldable pub next_rung : Plan → Walk → ℕ → Option PriceLadder → Result Exit ℕ
unfolding rung_at take_rung
next_rung plan walk n none =
    err (leaving WalkState.refused walk n none (remaining plan walk) WalkRefusal.unpriceable)
next_rung plan walk n (some l) = take_rung plan walk n (rung_at l.rungs n)
