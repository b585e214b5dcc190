-- ===== src/Pacing.antt =====
-- engine/src/engine/options/pacing_ledger.py: `PacingLedger`, the broker requests of a session in a SQLite
-- database. A time is a number of microseconds; a fraction is in ten-thousandths. A method takes the
-- tables and returns what the call gives with the tables after its transaction, which an exception
-- rolls back. `fresh` is the `uuid4` that a call draws.
pub mod Tables
pub mod Counting
pub mod Paced
pub mod Rows
pub mod Cap
pub mod Grants
pub mod Retry
pub mod Shared
mod Examples
use ibkr_strategy_engine.Prelude.{
  ℕ, ◌+◌, ◌-◌, ◌*◌, ◌/◌, ◌==◌, ltb, ltb_ℤ, leb_ℤ, eqb_ℤ, ℤ, pos, pos_part, String, Bool, false,
  ◌&&◌, ◌||◌, Option, none, some, is_some, List, [], ◌∷◌, ◌++◌, is_empty, strip, if◌then◌else◌,
}
use ibkr_strategy_engine.Prelude.Result.{Result, ok, err, ◌>>=◌, ◌>>◌, refuse_if}
use ibkr_strategy_engine.Pacing.Tables.{
  RequestKind, Priority, ReservationState, PacingReservation, Usage, Ledger, limit_of, with_limit,
  find, find_key, update_row, reap, consumed, outstanding, management, is_discovery,
}

pub data PacingError : Type 0 where
  cost_not_positive owner_empty ttl_not_positive duplicate_row : PacingError
  unknown_reservation wrong_state cost_out_of_range : PacingError

-- The configuration of a `PacingLedger`. The fractions are floats, of which `_reserve_floor` reads two products:
-- `reserve_share` is `int(limit * reserve_fraction)`, and `discovery_share` is
-- `int(limit * (1.0 - discovery_fraction))`. The truncation of the greater of two is the greater of their
-- truncations.
pub record Config : Type 0 where
  pub reserve_share : ℕ → ℕ
  pub discovery_share : ℕ → ℕ
  pub minimum_management_requests : ℕ
  pub reservation_ttl : ℕ

abbrev pub max : ℕ → ℕ → ℕ
max a b = if ltb a b then b else a

abbrev pub min : ℕ → ℕ → ℕ
min a b = if ltb b a then b else a

-- `_reserve_floor`
unfoldable pub reserve_floor : Config → ℕ → Priority → ℕ
reserve_floor c limit p =
    if management p
    then 0
    else (let floor = max (c.reserve_share limit) c.minimum_management_requests in
        let floor' = discovery_floor p floor in min floor' (limit - 1))
  where
    discovery_floor : Priority → ℕ → ℕ
    discovery_floor Priority.discovery floor = max floor (c.discovery_share limit)
    discovery_floor _ floor = floor

abbrev pub Call : Type 0
Call = Result PacingError PacingReservation × Ledger

-- The arguments of `reserve`; `ttl` is a number of microseconds, which may be negative.
pub record ReserveCall : Type 0 where
  pub kind : RequestKind
  pub cost : ℤ
  pub priority : Priority
  pub owner_id : String
  pub request_key : Option String
  pub ttl : Option ℤ
  pub now : ℕ
  pub fresh : String

-- `ttl or self.reservation_ttl`
abbrev pub duration : Config → Option ℤ → ℤ
duration c none = pos c.reservation_ttl
duration c (some t) = if eqb_ℤ t (pos 0) then pos c.reservation_ttl else t

-- `if request_key:` and the query.
abbrev pub existing : Option String → List PacingReservation → Option PacingReservation
existing none rs = none
existing (some key) rs = if is_empty key then none else find_key key rs

abbrev pub before : ℕ → Option ℕ → Bool
before now none = false
before now (some paused_until) = ltb now paused_until

-- The room that is left to a priority, against the limit less its floor.
abbrev pub exceeds : Config → ReserveCall → Ledger → Bool
exceeds c q l =
    let limit = (limit_of l q.kind).limit_count in
    ltb (limit - reserve_floor c limit q.priority)
      (consumed q.kind q.now l + outstanding q.kind q.now l + pos_part q.cost)

abbrev pub new_reservation : Config → ReserveCall → PacingReservation
new_reservation c q = record {
  reservation_id = q.fresh;
  request_key = q.request_key;
  kind = q.kind;
  cost = pos_part q.cost;
  priority = q.priority;
  owner_id = q.owner_id;
  created_at = q.now;
  expires_at = q.now + pos_part (duration c q.ttl);
  state = ReservationState.active;
}

-- The keys that a row must not share: `PRIMARY KEY` and `UNIQUE`.
abbrev key_taken : Option String → List PacingReservation → Bool
key_taken none rs = false
key_taken (some key) rs = is_some (find_key key rs)

abbrev pub conflicts : ReserveCall → List PacingReservation → Bool
conflicts q rs = is_some (find q.fresh rs) || key_taken q.request_key rs

abbrev pub Granted : Type 0
Granted = Result PacingError (Option PacingReservation) × Ledger

-- The transaction of `reserve` once the due rows have expired: `before` is what a rollback restores.
abbrev pub grant : Config → ReserveCall → Ledger → Ledger → Option PacingReservation → Granted
grant c q old l (some r) = (ok (some r), l)
grant c q old l none =
    if is_discovery q.priority && before q.now (limit_of l q.kind).paused_until
    then (ok none, l)
    else if exceeds c q l
    then (ok none, l)
    else if conflicts q l.reservations
    then (err PacingError.duplicate_row, old)
    else (
      ok (some (new_reservation c q)),
      record l { reservations = l.reservations ++ new_reservation c q ∷ [] },
    )

abbrev pub check_call : Config → ReserveCall → Result PacingError Unit
check_call c q = do
  refuse_if (leb_ℤ q.cost (pos 0)) PacingError.cost_not_positive
  refuse_if (is_empty (strip q.owner_id)) PacingError.owner_empty
  refuse_if (leb_ℤ (duration c q.ttl) (pos 0)) PacingError.ttl_not_positive

abbrev pub after_check : Result PacingError Unit → Ledger → Granted → Granted
after_check (ok _) old granted = granted
after_check (err e) old granted = (err e, old)

unfoldable pub reserve : Config → ReserveCall → Ledger → Granted
reserve c q l =
    after_check (check_call c q) l
      (grant c q l (reap q.now l) (existing q.request_key (reap q.now l).reservations))

-- A row is found, and what is done with it; an exception restores the old tables.
abbrev pub on_row : Ledger → Option PacingReservation → (PacingReservation → Call) → Call
on_row old none f = (err PacingError.unknown_reservation, old)
on_row old (some r) f = f r

abbrev pub usage_of : PacingReservation → ℕ → ℕ → Usage
usage_of r cost now = record {
  kind = r.kind;
  cost = cost;
  occurred_at = now;
  priority = r.priority;
  reservation_id = r.reservation_id;
}

-- An active row becomes `to`, and its cost is used.
abbrev pub spend : String → ReservationState → ℕ → ℕ → Ledger → PacingReservation → Call
spend id to cost now l r = (
  ok (record r { state = to; cost = cost }),
  record l {
    usage = l.usage ++ usage_of r cost now ∷ [];
    reservations = update_row id (λ x. record x { state = to; cost = cost }) l.reservations;
  },
)

abbrev pub actual : Option ℤ → ℕ → ℤ
actual none cost = pos cost
actual (some a) cost = a

abbrev pub commit_row :
    String → Option ℤ → ℕ → Ledger → Ledger → PacingReservation → ReservationState → Call
commit_row id actual_cost now old l r ReservationState.committed = (ok r, l)
commit_row id actual_cost now old l r ReservationState.active =
    if leb_ℤ (actual actual_cost r.cost) (pos 0) || ltb_ℤ (pos r.cost) (actual actual_cost r.cost)
    then (err PacingError.cost_out_of_range, old)
    else spend id ReservationState.committed (pos_part (actual actual_cost r.cost)) now l r
commit_row id actual_cost now old l r _ = (err PacingError.wrong_state, old)

unfoldable pub commit : String → Option ℤ → ℕ → Ledger → Call
commit id actual_cost now l =
    on_row l (find id (reap now l).reservations)
      (λ r. commit_row id actual_cost now l (reap now l) r r.state)

abbrev pub unknown_row : String → ℕ → Ledger → Ledger → PacingReservation → ReservationState → Call
unknown_row id now old l r ReservationState.unknown = (ok r, l)
unknown_row id now old l r ReservationState.active =
    spend id ReservationState.unknown r.cost now l r
unknown_row id now old l r _ = (err PacingError.wrong_state, old)

unfoldable pub mark_unknown : String → ℕ → Ledger → Call
mark_unknown id now l =
    on_row l (find id (reap now l).reservations) (λ r. unknown_row id now l (reap now l) r r.state)

abbrev pub release_row : String → Ledger → Ledger → PacingReservation → ReservationState → Call
release_row id old l r ReservationState.released = (ok r, l)
release_row id old l r ReservationState.active = (
  ok (record r { state = ReservationState.released }),
  record l {
    reservations =
        update_row id (λ x. record x { state = ReservationState.released }) l.reservations;
  },
)
release_row id old l r _ = (err PacingError.wrong_state, old)

unfoldable pub release : String → ℕ → Ledger → Call
release id now l =
    on_row l (find id (reap now l).reservations) (λ r. release_row id l (reap now l) r r.state)

abbrev pub later : ℕ → Option ℕ → ℕ
later paused none = paused
later paused (some previous) = max paused previous

-- The pause that is asked for, or a full window at the new factor.
abbrev pub horizon : Option ℕ → ℕ → ℕ
horizon none full = full
horizon (some p) full = if p == 0 then full else p

unfoldable pub penalize : RequestKind → Option ℕ → ℕ → Ledger → Ledger
penalize kind pause_for now l =
    let row = limit_of l kind in
    let factor = row.penalty_factor * 2 in
    let paused = now + horizon pause_for (row.window * factor) in
    with_limit l kind
      (record row { penalty_factor = factor; paused_until = some (later paused row.paused_until) })

-- `snapshot(kind, now=now).available` and `available`.
unfoldable pub available : Config → RequestKind → Priority → ℕ → Ledger → ℕ
available c kind p now l =
    let row = limit_of l kind in
    let left =
      row.limit_count - consumed kind now (reap now l) - outstanding kind now (reap now l) in
    if is_discovery p && before now row.paused_until
    then 0
    else left - reserve_floor c row.limit_count p
