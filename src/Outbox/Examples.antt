-- ===== src/Outbox/Examples.antt =====
-- engine/src/engine/options/order_outbox.py: a session of one order, and an attempt that is quarantined.
use ibkr_strategy_engine.Prelude.{
  ◌+◌, ◌≤◌, arith, ◌≡◌, ◌≢◌, ◌↔◌, refl, String, true, false, none, some, List, [], ◌∷◌, All, upper,
  eq_iff,
}
use ibkr_strategy_engine.Prelude.Result.{ok, err}
use ibkr_strategy_engine.Prelude.Dict.{lookup, insert}
use ibkr_strategy_engine.OrderState.Broker.{OrderLifecycleState, is_uncertain}
use ibkr_strategy_engine.Domain.Legs.{StrategyAction}
use ibkr_strategy_engine.Outbox.Budget.{
  Ledger, stored, release, BudgetError, missing, counts, ReserveCall, reserve, load, initial,
  sync_journal, add_reservation, write, exclusive,
}
use ibkr_strategy_engine.Outbox.Budget.Session.{
  Session, Reach, here, next, reserving, sending, IsFresh,
}
use ibkr_strategy_engine.Outbox.Budget.Cap.{session_cap}
use ibkr_strategy_engine.Outbox.Budget.Grants.{release-reserve}
use ibkr_strategy_engine.Outbox.Attempts.{
  OutboxState, Attempt, kept, Disk, healthy, no_receipt, Outbox, Operation, observing, concluding,
  aborting, run, save, transition, transition_guard,
}
use ibkr_strategy_engine.Outbox.Attempts.Clear.{is_blocking, assert_clear}
use ibkr_strategy_engine.Outbox.Attempts.Quarantine.{IsFiled, Fate, run-Fate}
use ibkr_strategy_engine.Outbox.Attempts.Blocking.{
  run_all, run_all_closed, run_all_quarantined, assert_clear_iff, IsClear,
}
use ibkr_strategy_engine.Outbox.Attempts.Sends.{classification_of, transmit_outcome_blocks}

-- Room for two orders, of which the journal holds one.
abbrev fresh : Session
fresh = record {
  budget = record {
    limit = 2;
    session_date = "2026-03-02";
    journal = counts 1 true;
    file = missing;
    is_locked = false;
    disk_ok = true;
  };
  in_flight = 0;
  sent = 0;
}

abbrev first : ReserveCall
first = record { strategy_id = "a1"; attempt_id = some "t1"; at = "10:00"; fresh = "x" }

fresh-IsFresh : IsFresh fresh
fresh-IsFresh = record { no_file = refl; no_sends = refl; no_flights = refl; within = omega arith }

abbrev reserved_one : Session
reserved_one = record fresh { budget = (reserve first fresh.budget).1 }

abbrev sent_one : Session
sent_one = record reserved_one { in_flight = 1; sent = 1 }

one_send : Reach fresh sent_one
unfolding reserve load initial sync_journal add_reservation insert lookup write exclusive
one_send = next (next here (reserving fresh first)) (sending reserved_one (omega arith))

session_cap_example : 1 + 1 ≤ 2
session_cap_example = session_cap fresh sent_one fresh-IsFresh one_send

-- At the cap the next reservation is refused.
second_refused :
    (reserve (record first { attempt_id = some "t2" }) reserved_one.budget).0
    ≡ err BudgetError.cap_reached
unfolding reserve load initial sync_journal add_reservation insert lookup write exclusive
second_refused = refl

-- The state of a session that has counted one order.
abbrev one_counted : Ledger
one_counted = record {
  session_date = "2026-03-02";
  limit = 2;
  journal_count = 1;
  committed = 0;
  reservations = [];
  released = [];
}

release-reserve_example : release "t1" "no fill" (reserve first fresh.budget).1 ≡ (
  ok tt,
  record (fresh.budget) {
    file = stored (record one_counted {
      released = record { reservation_id = "t1"; reason = "no fill" } ∷ [];
    });
  },
)
unfolding load initial sync_journal lookup
release-reserve_example =
    release-reserve first fresh.budget one_counted one_counted "no fill" refl refl refl refl
      (omega arith) refl

abbrev attempt : Attempt
attempt = record {
  attempt_id = "t1";
  strategy_id = "a1";
  action = StrategyAction.opening;
  structure_digest = "d1";
  spec_digest = "d2";
  account = "DU1";
  quantity = 1;
  underlying = "SPY";
  legs = [];
  approval_id = none;
  session_id = none;
  lease_nonce = none;
  tick_id = none;
  state = OutboxState.send_intent;
  broker_order_ref = some "r1";
  observation = none;
  classification = none;
  reason = none;
  reconciliation = none;
}

abbrev box : OutboxState → Outbox
box st = record {
  attempts = ("t1", kept (record attempt { state = st })) ∷ [];
  receipts = [];
  disk = healthy;
}

box-named :
    (st : OutboxState) (id : String) (a : Attempt)
    → lookup id (box st).attempts ≡ some (kept a)
    → a.attempt_id ≡ id
unfolding lookup
box-named st id a found = ground (arith, eq_iff "t1" id)

box-IsFiled : (st : OutboxState) → IsFiled (box st)
box-IsFiled st = record { named = box-named st }

abbrev calls : List (Disk × Operation)
calls = (no_receipt, aborting "t1" "stop") ∷ (healthy, observing "t1" "{}") ∷ []

run_all_quarantined_example :
    (lookup "t1" (run_all calls (box OutboxState.ambiguous)).attempts
      ≡ some (kept (record attempt { state = OutboxState.ambiguous })))
    × (assert_clear (run_all calls (box OutboxState.ambiguous)) ≢ ok tt)
unfolding lookup
run_all_quarantined_example =
    run_all_quarantined calls (box OutboxState.ambiguous) "t1"
      (record attempt { state = OutboxState.ambiguous }) (box-IsFiled OutboxState.ambiguous) refl
      refl (refl, (refl, tt))

run_all_closed_example :
    lookup "t1" (run_all calls (box OutboxState.outcome)).attempts
    ≡ some (kept (record attempt { state = OutboxState.outcome }))
unfolding lookup
run_all_closed_example =
    run_all_closed calls (box OutboxState.outcome) "t1"
      (record attempt { state = OutboxState.outcome }) (box-IsFiled OutboxState.outcome) refl refl

run-Fate_example :
    Fate
      (observing "t1" "{}")
      (box OutboxState.send_intent)
      "t1"
      attempt
      (lookup "t1" (run (observing "t1" "{}") (box OutboxState.send_intent)).1.attempts)
unfolding lookup
run-Fate_example =
    run-Fate (observing "t1" "{}") (box OutboxState.send_intent) "t1" attempt
      (box-IsFiled OutboxState.send_intent) refl

assert_clear_iff_example :
    (assert_clear (box OutboxState.ambiguous) ≡ ok tt)
    ↔ All IsClear (box OutboxState.ambiguous).attempts
assert_clear_iff_example = assert_clear_iff (box OutboxState.ambiguous)

-- The attempt once its timeout is recorded.
abbrev timed_out : Attempt
timed_out = record attempt {
  state = OutboxState.ambiguous;
  classification = some "UNKNOWN";
  observation = some "{}";
}

transmit_outcome_blocks_example : is_blocking timed_out ≡ true
unfolding run transition transition_guard save classification_of insert lookup upper is_uncertain
transmit_outcome_blocks_example =
    transmit_outcome_blocks OrderLifecycleState.timed_out "t1" "{}" (box OutboxState.send_intent)
      (run (concluding "t1" "UNKNOWN" "{}") (box OutboxState.send_intent)).1 timed_out refl
