-- ===== src/Pacing/Tables.antt =====
-- engine/src/engine/options/pacing_ledger.py: the tables, and the queries on them.
use ibkr_strategy_engine.Prelude.{
  ℕ, ◌+◌, ltb, leb, String, Bool, true, false, ◌&&◌, str_eq, Option, none, some, List, [], ◌∷◌,
  ◌++◌, sum_by, select, if◌then◌else◌,
}

pub data RequestKind : Type 0 where
  historical general : RequestKind

-- In the order of the numbers: a lower one goes first.
pub data Priority : Type 0 where
  exits_management working_orders authorization candidate_construction discovery : Priority

-- `priority <= Priority.WORKING_ORDERS`
abbrev pub management : Priority → Bool
management Priority.exits_management = true
management Priority.working_orders = true
management _ = false

abbrev pub is_discovery : Priority → Bool
is_discovery Priority.discovery = true
is_discovery _ = false

pub data ReservationState : Type 0 where
  active committed released expired unknown : ReservationState

abbrev pub is_active : ReservationState → Bool
is_active ReservationState.active = true
is_active _ = false

abbrev pub same_kind : RequestKind → RequestKind → Bool
same_kind RequestKind.historical RequestKind.historical = true
same_kind RequestKind.general RequestKind.general = true
same_kind _ _ = false

pub record PacingReservation : Type 0 where
  pub reservation_id : String
  pub request_key : Option String
  pub kind : RequestKind
  pub cost : ℕ
  pub priority : Priority
  pub owner_id : String
  pub created_at : ℕ
  pub expires_at : ℕ
  pub state : ReservationState

-- A row of `pacing_usage`.
pub record Usage : Type 0 where
  pub kind : RequestKind
  pub cost : ℕ
  pub occurred_at : ℕ
  pub priority : Priority
  pub reservation_id : String

-- A row of `pacing_crash_expiry`.
pub record Expiry : Type 0 where
  pub reservation_id : String
  pub expired_at : ℕ
  pub owner_id : String
  pub cost : ℕ

-- A row of `pacing_limits`.
pub record Limit : Type 0 where
  pub limit_count : ℕ
  pub window : ℕ
  pub penalty_factor : ℕ
  pub paused_until : Option ℕ

pub record Ledger : Type 0 where
  pub historical : Limit
  pub general : Limit
  pub usage : List Usage
  pub reservations : List PacingReservation
  pub crash_expiry : List Expiry

abbrev pub limit_of : Ledger → RequestKind → Limit
limit_of l RequestKind.historical = l.historical
limit_of l RequestKind.general = l.general

abbrev pub with_limit : Ledger → RequestKind → Limit → Ledger
with_limit l RequestKind.historical x = record l { historical = x }
with_limit l RequestKind.general x = record l { general = x }

-- `WHERE reservation_id = ?`
unfoldable pub find : String → List PacingReservation → Option PacingReservation
find id [] = none
find id (r ∷ rs) = if str_eq r.reservation_id id then some r else find id rs

abbrev pub has_key : String → Option String → Bool
has_key key none = false
has_key key (some k) = str_eq k key

-- `WHERE request_key = ?`
unfoldable pub find_key : String → List PacingReservation → Option PacingReservation
find_key key [] = none
find_key key (r ∷ rs) = if has_key key r.request_key then some r else find_key key rs

-- `UPDATE pacing_reservations SET ... WHERE reservation_id = ?`
unfoldable pub update_row :
    String
    → (PacingReservation → PacingReservation)
    → List PacingReservation
    → List PacingReservation
update_row id set [] = []
update_row id set (r ∷ rs) =
    (if str_eq r.reservation_id id then set r else r) ∷ update_row id set rs

-- An active reservation whose time has come.
abbrev pub is_due : ℕ → PacingReservation → Bool
is_due now r = is_active r.state && leb r.expires_at now

-- `_reap_expired_in_connection`: the rows that are due expire.
unfoldable pub expire : ℕ → List PacingReservation → List PacingReservation
expire now [] = []
expire now (r ∷ rs) =
    (if is_due now r then record r { state = ReservationState.expired } else r) ∷ expire now rs

-- The receipts of the expiry.
unfoldable pub expiries : ℕ → List PacingReservation → List Expiry
expiries now [] = []
expiries now (r ∷ rs) =
    let rest = expiries now rs in
    if is_due now r
    then record {
      reservation_id = r.reservation_id;
      expired_at = now;
      owner_id = r.owner_id;
      cost = r.cost;
    }
      ∷ rest
    else rest

unfoldable pub reap : ℕ → Ledger → Ledger
unfolding expiries
reap now l = record l {
  reservations = expire now l.reservations;
  crash_expiry = l.crash_expiry ++ expiries now l.reservations;
}

-- `occurred_at > now - window`
abbrev pub is_recent : RequestKind → ℕ → ℕ → Usage → Bool
is_recent kind window now u = same_kind u.kind kind && ltb now (u.occurred_at + window)

abbrev pub is_held : RequestKind → ℕ → PacingReservation → Bool
is_held kind now r = same_kind r.kind kind && is_active r.state && ltb now r.expires_at

-- `_usage_and_reserved`
abbrev pub consumed : RequestKind → ℕ → Ledger → ℕ
consumed kind now l =
    sum_by (λ u. u.cost) (select (is_recent kind (limit_of l kind).window now) l.usage)

abbrev pub outstanding : RequestKind → ℕ → Ledger → ℕ
outstanding kind now l = sum_by (λ r. r.cost) (select (is_held kind now) l.reservations)
