-- ===== src/Walk/Steps.antt =====
-- engine/src/engine/options/walk.py: the steps of a rung, in the order of `run`.
use ibkr_strategy_engine.Prelude.{
  ℕ, suc, ◌==◌, pos, Bool, true, false, Option, none, some, if◌then◌else◌,
}
use ibkr_strategy_engine.Prelude.Result.{Result, ok, err, ◌>>=◌, ◌>>◌}
use ibkr_strategy_engine.Domain.Legs.{OptionStrategyIntent}
use ibkr_strategy_engine.Pricing.{midpoint_credit}
use ibkr_strategy_engine.Walk.{RepriceError, reprice}
use ibkr_strategy_engine.Walk.Orders.{
  BrokerOrderSnapshot, WalkState, WalkRefusal, WalkAttempt, Working, Walk, newly_filled,
  credited_with, harvest, drop, is_done, settle,
}
use ibkr_strategy_engine.Walk.Rung.{
  Reverification, make_reverification, Authorization, World, Plan, WalkError, Exit, Offer,
  add_attempt, unsent, leaving, check_full, look_at, remaining, fresh_quotes, or_leave,
  check_midpoint, ladder_of, from_pricing, next_rung,
}

abbrev pub approves : Option Reverification → Bool
unfolding make_reverification
approves none = false
approves (some v) = elim (make_reverification v) [ err _ ↦ false | ok made ↦ made.approved ]

abbrev pub verified :
    (OptionStrategyIntent → Option Reverification)
    → Result RepriceError OptionStrategyIntent
    → Result WalkRefusal OptionStrategyIntent
verified reverify (err _) = err WalkRefusal.structure_invalid
verified reverify (ok candidate) =
    if approves (reverify candidate) then ok candidate else err WalkRefusal.risk_at_new_credit

-- `_price_and_verify`
unfoldable pub price_and_verify :
    (OptionStrategyIntent → Option Reverification)
    → OptionStrategyIntent
    → ℕ
    → ℕ
    → Result WalkRefusal OptionStrategyIntent
unfolding reprice
price_and_verify reverify intent credit quantity =
    verified reverify (reprice intent (pos credit) quantity)

-- Steps 1 to 5: the rung is priced and verified.
unfoldable pub prepare : World → Plan → ℕ → Walk → Result Exit Offer
unfolding look_at fresh_quotes or_leave check_midpoint from_pricing next_rung price_and_verify
prepare world plan n walk = do
  seen ← look_at plan walk walk.working (world.look n)
  quotes ← or_leave seen n none (remaining plan seen) (fresh_quotes (world.quotes n))
  check_midpoint plan seen n (midpoint_credit plan.intent.legs (some quotes))
  laddered ← from_pricing seen (ladder_of plan quotes)
  credit ← next_rung plan laddered n laddered.ladder
  candidate ←
      or_leave laddered n (some (pos credit)) (remaining plan laddered)
        (price_and_verify (world.reverify n false) plan.intent credit (remaining plan laddered))
  ok (record {
    walk = laddered;
    credit = credit;
    quantity = remaining plan laddered;
    candidate = candidate;
  })

-- The state of a walk that stops with an order that may still work, or with nothing new to send.
abbrev pub partial_or : WalkState → Walk → WalkState
partial_or state walk = if walk.filled == 0 then state else WalkState.partially_filled

abbrev pub last_seen : Option Working → Option BrokerOrderSnapshot
last_seen none = none
last_seen (some w) = w.snapshot

unfoldable pub check_confirmed : ℕ → Offer → Bool → Walk → Result Exit Walk
check_confirmed n offer true walk = ok (drop walk)
check_confirmed n offer false walk = err (
    Exit.finish (partial_or WalkState.uncertain walk) (
      add_attempt
        (record (unsent n (some (pos offer.credit)) offer.quantity
          WalkRefusal.cancellation_unconfirmed) { snapshot = last_seen walk.working })
        walk))

-- The second verification refuses: `return finish`.
unfoldable pub or_finish :
    Walk → ℕ → ℕ → ℕ → Result WalkRefusal OptionStrategyIntent → Result Exit Offer
or_finish walk n credit quantity (err cause) = err (
    Exit.finish (partial_or WalkState.refused walk)
      (add_attempt (unsent n (some (pos credit)) quantity cause) walk))
or_finish walk n credit quantity (ok candidate) =
    ok (record { walk = walk; credit = credit; quantity = quantity; candidate = candidate })

-- A fill that landed since changes the size, and with it the structure.
unfoldable pub resize : World → Plan → ℕ → Offer → Walk → Result Exit Offer
unfolding or_finish price_and_verify
resize world plan n offer walk =
    if remaining plan walk == offer.quantity
    then ok (record offer { walk = walk })
    else or_finish walk n offer.credit (remaining plan walk)
        (price_and_verify (world.reverify n true) plan.intent offer.credit (remaining plan walk))

-- Steps 6 and 7: the prior order is cancelled.
unfoldable pub clear : World → Plan → ℕ → Offer → Option Working → Result Exit Offer
unfolding check_full settle check_confirmed resize
clear world plan n offer none = ok offer
clear world plan n offer (some w) = do
  let look = world.look_again n w.intent
  seen ← check_full plan (harvest offer.walk w look)
  let s = settle seen (credited_with w look) (world.cancelling n w.intent)
  settled ← check_full plan s.walk
  cleared ← check_confirmed n offer s.confirmed settled
  resize world plan n offer cleared

abbrev pub working_on : OptionStrategyIntent → Working
working_on candidate = record { intent = candidate; credited = 0; snapshot = none }

abbrev pub sent_attempt : ℕ → Offer → Option BrokerOrderSnapshot → WalkAttempt
sent_attempt n offer snapshot = record {
  index = suc n;
  credit = some (pos offer.credit);
  quantity = offer.quantity;
  sent = true;
  filled_here = newly_filled (working_on offer.candidate) snapshot;
  snapshot = snapshot;
  refusal = none;
}

-- The walk with the order that was sent, and its attempt.
abbrev pub after_send : ℕ → Offer → Option BrokerOrderSnapshot → Walk
after_send n offer snapshot =
    add_attempt (sent_attempt n offer snapshot)
      (harvest offer.walk (working_on offer.candidate) snapshot)

unfoldable pub sent : Plan → ℕ → Offer → Option (Option BrokerOrderSnapshot) → Result Exit Walk
unfolding check_full
sent plan n offer none = err (
    leaving WalkState.refused offer.walk n (some (pos offer.credit)) offer.quantity
      WalkRefusal.send_failed)
sent plan n offer (some snapshot) = do
  walk ← check_full plan (after_send n offer snapshot)
  ok (if is_done snapshot then drop walk else walk)

abbrev pub on_authorization : World → Plan → ℕ → Offer → Authorization → Result Exit Walk
unfolding sent
on_authorization world plan n offer Authorization.authorizes =
    sent plan n offer (world.send n offer.candidate)
on_authorization world plan n offer Authorization.refuses = err (
    leaving WalkState.refused offer.walk n (some (pos offer.credit)) offer.quantity
      WalkRefusal.not_authorized)
on_authorization world plan n offer Authorization.escapes = err (Exit.raised WalkError.escaped)

-- Step 8.
unfoldable pub authorize_and_send : World → Plan → ℕ → Offer → Result Exit Walk
unfolding sent
authorize_and_send world plan n offer =
    on_authorization world plan n offer (world.authorize n offer.candidate)

-- The body of the loop.
unfoldable pub rung : World → Plan → ℕ → Walk → Result Exit Walk
unfolding prepare clear authorize_and_send
rung world plan n walk = do
  offer ← prepare world plan n walk
  cleared ← clear world plan n offer offer.walk.working
  authorize_and_send world plan n cleared
