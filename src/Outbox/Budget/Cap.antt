-- ===== src/Outbox/Budget/Cap.antt =====
-- engine/src/engine/options/order_outbox.py: the session cap on physical sends.
use ibkr_strategy_engine.Prelude.{ℕ, ◌+◌, ◌-◌, ◌≤◌, ◌<◌, ◌≡◌, refl, sym, ap, subst, String, arith}
use ibkr_strategy_engine.Outbox.Budget.{
  Ledger, stored, Budget, ReserveCall, reserve, commit, release, snapshot,
}
use ibkr_strategy_engine.Outbox.Budget.Counting.{
  journalled, total, held, IsCounted, FileIsCounted, file_total, file_held, Outcome,
  exclusive-Outcome,
}
use ibkr_strategy_engine.Outbox.Budget.Session.{
  Session, held_now, after_commit, Step, reserving, sending, committing, releasing, reading,
  journalling, environment, Reach, here, next, Inv, IsFresh,
}
use ibkr_strategy_engine.Outbox.Budget.Moves.{
  reserved, committed, released, read, IsCounted-write, commit_step, environment-counted,
  journalling-counted,
}

module _ (base cap : ℕ) (s : Session) (v : Inv base cap s) where
  -- A method that raised left the budget as it was.
  kept : (b : Budget) → b ≡ s.budget → Inv base cap (record s { budget = b })
  kept b e = subst (λ (x : Budget). Inv base cap (record s { budget = x })) (sym e) v

  -- A method that returned wrote a state that the session can go on with.
  settled :
      (b : Budget) (l : Ledger) (n : ℕ)
      → b ≡ record (s.budget) { file = stored l }
      → IsCounted s.budget l
      → n ≤ held l
      → s.sent + base ≤ total l + n
      → s.sent + base + held l ≤ cap + n
      → Inv base cap (record s { budget = b; in_flight = n })
  settled b l n e g fits sum room =
      subst (λ (x : Budget). Inv base cap (record s { budget = x; in_flight = n })) (sym e)
        (record {
          fixed = v.fixed;
          counted = IsCounted-write s.budget l g;
          covered = fits;
          accounted = sum;
          bounded = room;
        })

  reserving-Inv : (c : ReserveCall) → Inv base cap (record s { budget = (reserve c s.budget).1 })
  unfolding reserve
  reserving-Inv c = elim (exclusive-Outcome _ _ s.budget) [
    | Outcome.failed e r b ↦ kept (reserve c s.budget).1 b
    | Outcome.wrote l m r b ↦
        let (g, t, n, room) = reserved s.budget v.counted c l m in
        settled (reserve c s.budget).1 l s.in_flight b g (omega (arith, v.covered))
          (omega (arith, v.accounted)) (omega (arith, v.accounted, v.fixed))
  ]

  releasing-Inv :
      (id reason : String)
      → s.in_flight < held_now s
      → Inv base cap (record s { budget = (release id reason s.budget).1 })
  unfolding release
  releasing-Inv id reason unused = elim (exclusive-Outcome _ _ s.budget) [
    | Outcome.failed e r b ↦ kept (release id reason s.budget).1 b
    | Outcome.wrote l m r b ↦
        let (g, t, n) = released s.budget v.counted id reason l m in
        settled (release id reason s.budget).1 l s.in_flight b g (omega arith)
          (omega (arith, v.accounted)) (omega (arith, v.bounded))
  ]

  reading-Inv : Inv base cap (record s { budget = (snapshot s.budget).1 })
  unfolding snapshot
  reading-Inv = elim (exclusive-Outcome _ _ s.budget) [
    | Outcome.failed e r b ↦ kept (snapshot s.budget).1 b
    | Outcome.wrote l m r b ↦
        let (g, t, n) = read s.budget v.counted l m in
        settled (snapshot s.budget).1 l s.in_flight b g (omega (arith, v.covered))
          (omega (arith, v.accounted)) (omega (arith, v.bounded))
  ]

  committing-Inv :
      (id : String)
      → 0 < s.in_flight
      → Inv base cap (record s {
        budget = (commit id s.budget).1;
        in_flight = after_commit (commit id s.budget).0 s.in_flight;
      })
  unfolding commit
  committing-Inv id busy = elim (exclusive-Outcome (commit_step id) (λ _. tt) s.budget) [
    | Outcome.failed e r b ↦ rw r (kept (commit id s.budget).1 b)
    | Outcome.wrote l m r b ↦
        let (g, t, n) = committed s.budget v.counted id l m in
        rw r (
          settled (commit id s.budget).1 l (s.in_flight - 1) b g (omega (arith, v.covered))
            (omega (arith, v.accounted)) (omega (arith, v.bounded)))
  ]

Step-Inv : (base cap : ℕ) {s t : Session} → Step s t → Inv base cap s → Inv base cap t
Step-Inv base cap (reserving s c) v = reserving-Inv base cap s v c
Step-Inv base cap (sending s unused) v = record {
  fixed = v.fixed;
  counted = v.counted;
  covered = omega arith;
  accounted = omega (arith, v.accounted);
  bounded = omega (arith, v.bounded);
}
Step-Inv base cap (committing s id busy) v = committing-Inv base cap s v id busy
Step-Inv base cap (releasing s id reason unused) v = releasing-Inv base cap s v id reason unused
Step-Inv base cap (reading s) v = reading-Inv base cap s v
Step-Inv base cap (journalling s) v =
    let (g, t) = journalling-counted s.budget s.budget.file v.counted in
    record {
      fixed = v.fixed;
      counted = g;
      covered = v.covered;
      accounted = omega (arith, v.accounted);
      bounded = v.bounded;
    }
Step-Inv base cap (environment s is_locked disk_ok r) v =
    let (g, t) = environment-counted s.budget s.budget.file is_locked disk_ok r v.counted in
    record {
      fixed = v.fixed;
      counted = g;
      covered = v.covered;
      accounted = omega (arith, v.accounted);
      bounded = v.bounded;
    }

Reach-Inv : (base cap : ℕ) {s t : Session} → Inv base cap s → Reach s t → Inv base cap t
Reach-Inv base cap v here = v
Reach-Inv base cap v (next r st) = Step-Inv base cap st (Reach-Inv base cap v r)

IsFresh-Inv : (s : Session) → IsFresh s → Inv (journalled s.budget.journal) s.budget.limit s
IsFresh-Inv s f = record {
  fixed = refl;
  counted = subst (FileIsCounted s.budget) (sym f.no_file) tt;
  covered = omega (arith, f.no_flights);
  accounted = omega (arith, f.no_sends, f.no_flights, ap (file_total s.budget) f.no_file);
  bounded = omega (arith, f.no_sends, f.no_flights, f.within, ap file_held f.no_file);
}

-- In a session that starts with no budget file, no sends and a journal within the cap, however its
-- processes reserve, send under a reservation, commit, release and die, whatever fails, and whichever orders
-- enter the journal, with or without a reservation or a commit, the orders journalled before the session and
-- the broker calls made in it under reservations are together within the cap.
pub session_cap :
    (s t : Session) → IsFresh s → Reach s t → t.sent + journalled s.budget.journal ≤ s.budget.limit
session_cap s t fresh r =
    let v = Reach-Inv (journalled s.budget.journal) s.budget.limit (IsFresh-Inv s fresh) r in
    omega (arith, v.bounded, v.covered)
