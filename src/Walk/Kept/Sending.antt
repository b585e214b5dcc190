-- ===== src/Walk/Kept/Sending.antt =====
-- engine/src/engine/options/walk.py: what every step of `run` keeps, cancelling, sending and the loop keep.
use ibkr_strategy_engine.Prelude.{
  ℕ, zero, suc, ◌+◌, ◌≡◌, refl, subst, arith, inl, inr, Bool, true, false, Bool-cases, Option, none,
  some, if◌then◌else◌, ◌==◌,
}
use ibkr_strategy_engine.Prelude.Result.{Result, ok, err}
use ibkr_strategy_engine.Domain.Legs.{OptionStrategyIntent}
use ibkr_strategy_engine.Walk.Orders.{
  BrokerOrderSnapshot, WalkRefusal, Working, Walk, credited_with, harvest, drop, is_done, is_full,
  settle,
}
use ibkr_strategy_engine.Walk.Rung.{Authorization, World, Plan, Exit, Offer, check_full, remaining}
use ibkr_strategy_engine.Walk.Steps.{
  working_on, price_and_verify, prepare, check_confirmed, or_finish, resize, clear, after_send,
  sent, on_authorization, authorize_and_send, rung,
}
use ibkr_strategy_engine.Walk.Run.{rungs}
use ibkr_strategy_engine.Walk.Kept.{
  After, After-bind, Leaves, IsOffer, IsDead, credited-is_done, settle-IsDead, Shows, Keeps,
  settled-keeps,
}
use ibkr_strategy_engine.Walk.Kept.Prepared.{
  check_full-keeps, price_and_verify_ok, Ready, prepare-keeps,
}

module _ (world : World) (plan : Plan)
    (K : OptionStrategyIntent → Option BrokerOrderSnapshot → Type 0) (I : ℕ → Walk → Type 0)
    (shows : Shows K world) (keeps : Keeps world plan K I) where
  abbrev Left : ℕ → Exit → Type 0
  Left n = Leaves (I (suc n))

  check_confirmed-keeps :
      (n : ℕ) (o : Offer) (b : Bool) (walk : Walk)
      → I n walk
      → (b ≡ true → IsDead walk)
      → After (Left n) (λ (x : Walk). I n x × (x.working ≡ none)) (check_confirmed n o b walk)
  unfolding check_confirmed
  check_confirmed-keeps n o true walk i dead = (keeps.dropped n walk (dead refl) i, refl)
  check_confirmed-keeps n o false walk i dead = keeps.refused n walk _ refl i

  abbrev Cleared : ℕ → Offer → Type 0
  Cleared n o = I n o.walk × IsOffer world plan n o × (o.walk.working ≡ none)

  or_finish-keeps :
      (n : ℕ) (walk : Walk) (credit quantity : ℕ) (m : Result WalkRefusal OptionStrategyIntent)
      (Q : Offer → Type 0)
      → ((candidate : OptionStrategyIntent)
          → m ≡ ok candidate
          → Q (record { walk = walk; credit = credit; quantity = quantity; candidate = candidate }))
      → I n walk
      → After (Left n) Q (or_finish walk n credit quantity m)
  unfolding or_finish
  or_finish-keeps n walk credit quantity (ok candidate) Q k i = k candidate refl
  or_finish-keeps n walk credit quantity (err cause) Q k i = keeps.refused n walk _ refl i

  resize-keeps :
      (n : ℕ) (o : Offer) (walk : Walk)
      → I n walk
      → walk.working ≡ none
      → IsOffer world plan n o
      → After (Left n) (Cleared n) (resize world plan n o walk)
  unfolding resize
  resize-keeps n o walk i idle is = elim (Bool-cases (remaining plan walk == o.quantity)) [
    | inl e ↦ rw e (
      i,
      record {
        inside = is.inside;
        offered = is.offered;
        sized = ground arith;
        priced = is.priced;
        approved = is.approved;
      },
      idle,
    )
    | inr e ↦ rw e (
        or_finish-keeps n walk o.credit (remaining plan walk)
          (price_and_verify (world.reverify n true) plan.intent o.credit (remaining plan walk))
          (Cleared n)
          (λ candidate found.
            let (priced, approved) =
              price_and_verify_ok world plan K I shows keeps n true o.credit (remaining plan walk)
                candidate found in
            (
              i,
              record {
                inside = is.inside;
                offered = is.offered;
                sized = refl;
                priced = priced;
                approved = (true, approved);
              },
              idle,
            ))
          i)
  ]

  clear-keeps :
      (n : ℕ) (o : Offer) (holds : Option Working)
      → o.walk.working ≡ holds
      → Ready world plan K I shows keeps n o
      → After (Left n) (Cleared n) (clear world plan n o holds)
  unfolding clear
  clear-keeps n o none e (i, is) = (i, is, e)
  clear-keeps n o (some w) e (i, is) =
      let look = world.look_again n w.intent in
      let j = keeps.looked n o.walk w look e (shows.look_again n w.intent) i in
      After-bind (Left n) (λ (x : Walk). I n x × (x.working ≡ some (credited_with w look)))
        (Cleared n) (check_full plan (harvest o.walk w look)) _
        (check_full-keeps world plan K I shows keeps n (harvest o.walk w look) _ (j, refl) j)
        λ seen (k, holds).
          let s = settle seen (credited_with w look) (world.cancelling n w.intent) in
          let l =
            settled-keeps world plan K I shows keeps n o.walk seen w look
              (world.cancelling n w.intent) holds (shows.first n w.intent) (shows.rest n w.intent)
              k in
          let Q = λ (x : Walk). I n x × (s.confirmed ≡ true → IsDead x) in
          After-bind (Left n) Q (Cleared n) (check_full plan s.walk) _
            (check_full-keeps world plan K I shows keeps n s.walk Q
              (l, settle-IsDead seen (credited_with w look) (world.cancelling n w.intent)) l)
            λ settled (m, dead).
              After-bind (Left n) (λ (x : Walk). I n x × (x.working ≡ none)) (Cleared n)
                (check_confirmed n o s.confirmed settled) _
                (check_confirmed-keeps n o s.confirmed settled m dead)
                λ cleared (q, idle). resize-keeps n o cleared q idle is

  if_done-keeps :
      (n : ℕ) (o : Offer) (s : Option BrokerOrderSnapshot)
      → I (suc n) (after_send n o s)
      → I (suc n) (if is_done s then drop (after_send n o s) else after_send n o s)
  if_done-keeps n o s j = elim (Bool-cases (is_done s)) [
    | inl e ↦ rw e (
        keeps.dropped (suc n) (after_send n o s)
          (
            credited_with (working_on o.candidate) s,
            refl,
            credited-is_done (working_on o.candidate) s e,
          )
          j)
    | inr e ↦ rw e j
  ]

  send-keeps :
      (n : ℕ) (o : Offer) (answer : Option (Option BrokerOrderSnapshot))
      → world.send n o.candidate ≡ answer
      → world.authorize n o.candidate ≡ Authorization.authorizes
      → Cleared n o
      → After (Left n) (I (suc n)) (sent plan n o answer)
  unfolding sent check_full
  send-keeps n o none e granted (i, is, idle) = keeps.refused n o.walk _ refl i
  send-keeps n o (some s) e granted (i, is, idle) =
      let j = keeps.offered n o s is granted idle (shows.sent n o.candidate s e) i in
      elim (Bool-cases (is_full plan.intent.quantity (after_send n o s))) [
        | inl full ↦ rw full j
        | inr short ↦ rw short (if_done-keeps n o s j)
      ]

  authorize_and_send-keeps :
      (n : ℕ) (o : Offer)
      → Cleared n o
      → After (Left n) (I (suc n)) (authorize_and_send world plan n o)
  unfolding authorize_and_send
  authorize_and_send-keeps n o h = by_answer (world.authorize n o.candidate) refl
    where
      by_answer :
          (a : Authorization)
          → world.authorize n o.candidate ≡ a
          → After (Left n) (I (suc n)) (on_authorization world plan n o a)
      by_answer Authorization.authorizes e = send-keeps n o (world.send n o.candidate) refl e h
      by_answer Authorization.refuses e = keeps.refused n o.walk _ refl h.0
      by_answer Authorization.escapes e = tt

  rung-keeps :
      (n : ℕ) (walk : Walk) → I n walk → After (Left n) (I (suc n)) (rung world plan n walk)
  unfolding rung
  rung-keeps n walk i =
      After-bind (Left n) (Ready world plan K I shows keeps n) (I (suc n))
        (prepare world plan n walk) _ (prepare-keeps world plan K I shows keeps n walk i)
        λ o ready.
          After-bind (Left n) (Cleared n) (I (suc n)) (clear world plan n o o.walk.working) _
            (clear-keeps n o o.walk.working refl ready)
            λ p cleared. authorize_and_send-keeps n p cleared

  keeps_more : (more n : ℕ) (walk : Walk) → I n walk → I (n + more) walk
  keeps_more zero n walk i = subst (λ (m : ℕ). I m walk) (omega arith) i
  keeps_more (suc more) n walk i =
      subst (λ (m : ℕ). I m walk) (omega arith)
        (keeps_more more (suc n) walk (keeps.skipped n walk i))

  Leaves-more : (more n : ℕ) (exit : Exit) → Left n exit → Leaves (I (suc n + more)) exit
  Leaves-more more n (Exit.raised cause) i = tt
  Leaves-more more n (Exit.leave state walk) i = keeps_more more (suc n) walk i
  Leaves-more more n (Exit.finish state walk) i = keeps_more more (suc n) walk i

  -- The whole loop.
  go_on :
      (total more n : ℕ) (m : Result Exit Walk)
      → total ≡ n + suc more
      → After (Left n) (I (suc n)) m
      → ((next : Walk) → I (suc n) next → Leaves (I total) (rungs world plan more (suc n) next))
      → Leaves (I total) (elim m [ err exit ↦ exit | ok next ↦ rungs world plan more (suc n) next ])
  go_on total more n (err exit) e j k =
      subst (λ (m : ℕ). Leaves (I m) exit) (omega arith) (Leaves-more more n exit j)
  go_on total more n (ok next) e j k = k next j

  pub rungs-keeps :
      (total more n : ℕ) (walk : Walk)
      → total ≡ n + more
      → I n walk
      → Leaves (I total) (rungs world plan more n walk)
  unfolding rungs
  rungs-keeps total zero n walk e i = subst (λ (m : ℕ). I m walk) (omega arith) i
  rungs-keeps total (suc more) n walk e i =
      go_on total more n (rung world plan n walk) e (rung-keeps n walk i)
        λ next j. rungs-keeps total more (suc n) next (omega arith) j
