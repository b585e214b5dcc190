-- ===== src/Pacing/Examples.antt =====
-- engine/src/engine/options/pacing_ledger.py and pacing.py: a session with a limit of eight general requests a minute.
use ibkr_strategy_engine.Prelude.{
  ◌*◌, ◌/◌, ◌+◌, ◌≤◌, pos, ◌≡◌, refl, arith, none, some, [], ◌∷◌, strip,
}
use ibkr_strategy_engine.Prelude.Result.{ok, err}
use ibkr_strategy_engine.Pacing.Tables.{
  RequestKind, Priority, PacingReservation, Ledger, find, find_key, update_row, expire, expiries,
  reap, consumed, outstanding,
}
use ibkr_strategy_engine.Pacing.{
  PacingError, Config, reserve_floor, ReserveCall, new_reservation, reserve, usage_of, release,
  commit, available,
}
use ibkr_strategy_engine.Pacing.Shared.{
  SharedError, LocalAnswer, shared_call, acquire, acquire-Spends,
}
use ibkr_strategy_engine.Pacing.Cap.{Step, Run, rolling_cap}
use ibkr_strategy_engine.Pacing.Retry.{reserve_retry}

abbrev config : Config
config = record {
  reserve_share = λ limit. limit * 2_500 / 10_000;
  discovery_share = λ limit. 0;
  minimum_management_requests = 3;
  reservation_ttl = 50;
}

abbrev opened : Ledger
opened = record {
  historical = record { limit_count = 4; window = 600; penalty_factor = 1; paused_until = none };
  general = record { limit_count = 8; window = 60; penalty_factor = 1; paused_until = none };
  usage = [];
  reservations = [];
  crash_expiry = [];
}

abbrev scan : ReserveCall
scan = record {
  kind = RequestKind.general;
  cost = pos 5;
  priority = Priority.discovery;
  owner_id = "scan";
  request_key = some "scan-1";
  ttl = none;
  now = 100;
  fresh = "r1";
}

abbrev close_out : ReserveCall
close_out = record {
  kind = RequestKind.general;
  cost = pos 3;
  priority = Priority.exits_management;
  owner_id = "manage";
  request_key = none;
  ttl = some (pos 10);
  now = 100;
  fresh = "r2";
}

abbrev scanned : Ledger
scanned = (reserve config scan opened).1

scan_test : (reserve config scan opened).0 ≡ ok (some (new_reservation config scan))
unfolding reserve reserve_floor reap expire expiries find find_key strip
scan_test = refl

-- Discovery must leave three requests.
scan_twice_test :
    (reserve config (record scan { fresh = "r3"; request_key = none; cost = pos 1 }) scanned).0
    ≡ ok none
unfolding reserve reserve_floor reap expire expiries find find_key strip
scan_twice_test = refl

owner_test :
    (reserve config (record scan { owner_id = " " }) opened).0 ≡ err PacingError.owner_empty
unfolding reserve reserve_floor reap expire expiries find find_key strip
owner_test = refl

commit_test : consumed RequestKind.general 120 (commit "r1" (some (pos 4)) 120 scanned).1 ≡ 4
unfolding commit reserve reserve_floor reap expire expiries find find_key update_row strip
commit_test = refl

overspent_test : (commit "r1" (some (pos 6)) 120 scanned).0 ≡ err PacingError.cost_out_of_range
unfolding commit reserve reserve_floor reap expire expiries find find_key update_row strip
overspent_test = refl

late_test : (commit "r1" none 150 scanned).0 ≡ err PacingError.wrong_state
unfolding commit reserve reserve_floor reap expire expiries find find_key update_row strip
late_test = refl

available_test : available config RequestKind.general Priority.authorization 100 scanned ≡ 0
unfolding available reserve reserve_floor reap expire expiries find find_key strip
available_test = refl

rolling_cap_example :
    consumed RequestKind.general 130 (commit "r1" none 130 scanned).1
      + outstanding RequestKind.general 130 (commit "r1" none 130 scanned).1
    ≤ 8
rolling_cap_example =
    rolling_cap config 100 130 opened (commit "r1" none 130 scanned).1 RequestKind.general refl refl
      (Run.then_step (Run.then_step Run.fresh (Step.reserving 100 opened scan (omega arith)))
        (Step.committing 100 scanned "r1" none 130 (omega arith)))

-- The same scan, asked for again with another cost once the reservation has expired.
reserve_retry_example :
    (x : PacingReservation) × (x.reservation_id ≡ "r1")
    × (reserve config (record scan { now = 200; cost = pos 2; fresh = "r9" }) scanned
        ≡ (ok (some x), reap 200 scanned))
unfolding reserve reserve_floor reap expire expiries find find_key strip
reserve_retry_example =
    reserve_retry config scan (record scan { now = 200; cost = pos 2; fresh = "r9" }) opened
      (new_reservation config scan) "scan-1" refl refl refl refl refl

abbrev probe : ReserveCall
probe = shared_call RequestKind.general Priority.exits_management "manage" "manage:1" 100 "r4"

failed_test :
    acquire config RequestKind.general Priority.exits_management "manage" "manage:1" 100 "r4"
      (LocalAnswer.failed 101)
      scanned
    ≡ (err SharedError.local_failed, (release "r4" 101 (reserve config probe scanned).1).1)
unfolding acquire reserve reserve_floor reap expire expiries find find_key update_row strip release
failed_test = refl

acquire-Spends_example :
    (acquire config RequestKind.general Priority.exits_management "manage" "manage:1" 100 "r4"
      (LocalAnswer.waited 103)
      scanned).1.usage
    ≡ usage_of (new_reservation config probe) 1 103 ∷ []
unfolding acquire reserve reserve_floor reap expire expiries find find_key update_row strip commit
acquire-Spends_example =
    acquire-Spends config RequestKind.general Priority.exits_management "manage" "manage:1" 100 "r4"
      (LocalAnswer.waited 103) scanned refl refl
