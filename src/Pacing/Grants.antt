-- ===== src/Pacing/Grants.antt =====
-- engine/src/engine/options/pacing_ledger.py: what a reservation leaves to the management of positions, and
-- a call that is tried again.
use ibkr_strategy_engine.Prelude.{
  ℕ, ◌-◌, ◌⊎◌, ◌≤◌, ◌≡◌, refl, Bool, true, false, ◌&&◌, none, some, if◌then◌else◌,
}
use ibkr_strategy_engine.Prelude.Result.{Result, ok, err}
use ibkr_strategy_engine.Pacing.Tables.{
  Priority, PacingReservation, Ledger, limit_of, is_discovery, reap,
}
use ibkr_strategy_engine.Pacing.{
  PacingError, Config, ReserveCall, Granted, exceeds, existing, grant, conflicts, new_reservation,
  check_call, after_check, reserve, before,
}
use ibkr_strategy_engine.Pacing.Cap.{with_row}

-- What the configuration sets aside from a priority other than management: a share of the limit or a number of
-- requests, and from discovery what is not its own share; never all of the limit.
abbrev pub IsSetAside : Config → ℕ → Priority → ℕ → Type 0
IsSetAside c limit p cost =
    (cost ≤ limit - 1)
    × ((cost ≤ c.reserve_share limit)
        ⊎ (cost ≤ c.minimum_management_requests)
        ⊎ ((p ≡ Priority.discovery) × (cost ≤ c.discovery_share limit)))

-- A new row, where one was granted.
abbrev pub next_tables : Config → ReserveCall → Ledger → Ledger
next_tables c q l = with_row (reap q.now l) (new_reservation c q)

-- What a call gives, by the three tests of a new key.
abbrev pub chosen : Config → ReserveCall → Ledger → Bool → Bool → Bool → Granted
chosen c q l paused full taken =
    if paused
    then (ok none, reap q.now l)
    else if full
    then (ok none, reap q.now l)
    else if taken
    then (err PacingError.duplicate_row, l)
    else (ok (some (new_reservation c q)), next_tables c q l)

-- A reservation under a new key is granted only within the limit less the floor.
pub granted_new :
    (c : Config) (q : ReserveCall) (l : Ledger) (r : PacingReservation)
    → existing q.request_key (reap q.now l).reservations ≡ none
    → (reserve c q l).0 ≡ ok (some r)
    → ((reserve c q l).1 ≡ next_tables c q l)
      × (r ≡ new_reservation c q)
      × (exceeds c q (reap q.now l) ≡ false)
unfolding reserve
granted_new c q l r fresh h = rw fresh (checked (check_call c q) (rw fresh at h))
  where
    m : Ledger
    m = reap q.now l

    Out : Granted → Type 0
    Out g = (g.1 ≡ next_tables c q l) × (r ≡ new_reservation c q) × (exceeds c q m ≡ false)

    tested :
        (paused full taken : Bool)
        → exceeds c q m ≡ full
        → (chosen c q l paused full taken).0 ≡ ok (some r)
        → Out (chosen c q l paused full taken)
    tested true full taken e h = cc
    tested false true taken e h = cc
    tested false false true e h = cc
    tested false false false e h = (refl, cc, e)

    checked :
        (v : Result PacingError Unit)
        → (after_check v l (grant c q l m none)).0 ≡ ok (some r)
        → Out (after_check v l (grant c q l m none))
    checked (err e) h = cc
    checked (ok _) h =
        tested (is_discovery q.priority && before q.now (limit_of m q.kind).paused_until)
          (exceeds c q m) (conflicts q m.reservations) refl h
