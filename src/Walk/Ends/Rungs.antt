-- ===== src/Walk/Ends/Rungs.antt =====
-- engine/src/engine/options/walk.py: how the rungs of `run` leave the loop.
use ibkr_strategy_engine.Prelude.{
  ℕ, zero, suc, ◌≡◌, refl, Bool, true, false, Bool-cases, inl, inr, Option, none, some, ◌==◌,
  if◌then◌else◌,
}
use ibkr_strategy_engine.Prelude.Result.{Result, ok, err}
use ibkr_strategy_engine.Domain.Legs.{OptionStrategyIntent}
use ibkr_strategy_engine.Walk.Orders.{
  BrokerOrderSnapshot, WalkState, WalkRefusal, Working, Walk, credited_with, harvest, drop, settle,
  is_done,
}
use ibkr_strategy_engine.Walk.Rung.{
  Authorization, World, Plan, WalkError, Exit, Offer, check_full, remaining,
}
use ibkr_strategy_engine.Walk.Steps.{
  price_and_verify, prepare, check_confirmed, or_finish, resize, clear, after_send, sent,
  on_authorization, authorize_and_send, rung,
}
use ibkr_strategy_engine.Walk.Run.{rungs}
use ibkr_strategy_engine.Walk.Kept.{After, After-bind}
use ibkr_strategy_engine.Walk.Ends.{
  partial-Agrees, total, Tidy, IsShort, Any, Raises, full-Tidy, prepare-Tidy,
}

-- An exception of `authorize_open` that is not an `EngineError`.
abbrev pub Escapes : World → (WalkError → Type 0) → Type 0
Escapes world R =
    (n : ℕ) (i : OptionStrategyIntent)
    → world.authorize n i ≡ Authorization.escapes
    → R WalkError.escaped

module _ (world : World) (plan : Plan) (R : WalkError → Type 0) (raises : Raises plan R)
    (leaves : Escapes world R) where
  abbrev T : Exit → Type 0
  T = Tidy plan R

  abbrev S : Walk → Type 0
  S = IsShort plan

  confirmed-Tidy :
      (n : ℕ) (o : Offer) (b : Bool) (walk : Walk) → S walk → After T S (check_confirmed n o b walk)
  unfolding check_confirmed
  confirmed-Tidy n o true walk short = short
  confirmed-Tidy n o false walk short =
      partial-Agrees (total plan) WalkState.uncertain walk (λ f e. e) short

  finish-Tidy :
      (walk : Walk) (n credit quantity : ℕ) (m : Result WalkRefusal OptionStrategyIntent)
      → S walk
      → After T Any (or_finish walk n credit quantity m)
  unfolding or_finish
  finish-Tidy walk n credit quantity (ok candidate) short = tt
  finish-Tidy walk n credit quantity (err cause) short =
      partial-Agrees (total plan) WalkState.refused walk (λ f e. e) short

  resize-Tidy :
      (n : ℕ) (o : Offer) (walk : Walk) → S walk → After T Any (resize world plan n o walk)
  unfolding resize
  resize-Tidy n o walk short = elim (Bool-cases (remaining plan walk == o.quantity)) [
    | inl e ↦ rw e tt
    | inr e ↦ rw e (
        finish-Tidy walk n o.credit (remaining plan walk)
          (price_and_verify (world.reverify n true) plan.intent o.credit (remaining plan walk))
          short)
  ]

  clear-Tidy :
      (n : ℕ) (o : Offer) (holds : Option Working) → After T Any (clear world plan n o holds)
  unfolding clear
  clear-Tidy n o none = tt
  clear-Tidy n o (some w) =
      let look = world.look_again n w.intent in
      After-bind T S Any (check_full plan (harvest o.walk w look)) _
        (full-Tidy world plan R raises (harvest o.walk w look))
        λ seen a.
          let s = settle seen (credited_with w look) (world.cancelling n w.intent) in
          After-bind T S Any (check_full plan s.walk) _ (full-Tidy world plan R raises s.walk)
            λ settled short.
              After-bind T S Any (check_confirmed n o s.confirmed settled) _
                (confirmed-Tidy n o s.confirmed settled short)
                λ cleared still. resize-Tidy n o cleared still

  sent-Tidy :
      (n : ℕ) (o : Offer) (answer : Option (Option BrokerOrderSnapshot))
      → After T Any (sent plan n o answer)
  unfolding sent
  sent-Tidy n o none = tt
  sent-Tidy n o (some s) =
      After-bind T S Any (check_full plan (after_send n o s))
        (λ walk. ok (if is_done s then drop walk else walk))
        (full-Tidy world plan R raises (after_send n o s)) (λ walk short. tt)

  authorize-Tidy : (n : ℕ) (o : Offer) → After T Any (authorize_and_send world plan n o)
  unfolding authorize_and_send
  authorize-Tidy n o = by_answer (world.authorize n o.candidate) refl
    where
      by_answer :
          (a : Authorization)
          → world.authorize n o.candidate ≡ a
          → After T Any (on_authorization world plan n o a)
      by_answer Authorization.authorizes e = sent-Tidy n o (world.send n o.candidate)
      by_answer Authorization.refuses e = tt
      by_answer Authorization.escapes e = leaves n o.candidate e

  rung-Tidy : (n : ℕ) (walk : Walk) → After T Any (rung world plan n walk)
  unfolding rung
  rung-Tidy n walk =
      After-bind T Any Any (prepare world plan n walk) _ (prepare-Tidy world plan R raises n walk)
        λ o a.
          After-bind T Any Any (clear world plan n o o.walk.working) _
            (clear-Tidy n o o.walk.working) λ p b. authorize-Tidy n p

  go_on :
      (more n : ℕ) (m : Result Exit Walk)
      → After T Any m
      → ((next : Walk) → T (rungs world plan more (suc n) next))
      → T (elim m [ err exit ↦ exit | ok next ↦ rungs world plan more (suc n) next ])
  go_on more n (err exit) h k = h
  go_on more n (ok next) h k = k next

  pub rungs-Tidy : (more n : ℕ) (walk : Walk) → T (rungs world plan more n walk)
  unfolding rungs
  rungs-Tidy zero n walk = tt
  rungs-Tidy (suc more) n walk =
      go_on more n (rung world plan n walk) (rung-Tidy n walk) λ next. rungs-Tidy more (suc n) next
