-- ===== src/Outbox/Budget.antt =====
-- engine/src/engine/options/order_outbox.py: `TransmissionBudget`, the session's cap on physical sends.
-- A method takes the budget with its file, its lock and the journal that it reads, and returns what
-- the call gives with the budget as it is afterwards. JSON values have the types that the class
-- writes; a reservation map that is none is `malformed`, with its truth value.
pub mod Counting
pub mod Session
pub mod Moves
pub mod Cap
pub mod Grants
use ibkr_strategy_engine.Prelude.{
  ℕ, ◌+◌, ◌-◌, String, Bool, true, false, not, ◌||◌, ◌==◌, ltb, leb, str_eq, Option, none, some,
  is_some, List, [], ◌∷◌, ◌++◌, length, is_empty, if◌then◌else◌,
}
use ibkr_strategy_engine.Prelude.Result.{Result, ok, err, ◌>>=◌, ◌>>◌, refuse_if}
use ibkr_strategy_engine.Prelude.Dict.{Dict, lookup, insert, delete}

pub data BudgetError : Type 0 where
  locked journal_count_unknown prior_session cap_changed malformed_map unreadable : BudgetError
  journal_backwards cap_reached duplicate_reservation unknown_reservation : BudgetError
  write_failed : BudgetError

pub record Held : Type 0 where
  pub strategy_id : String
  pub reserved_at : String

pub record Released : Type 0 where
  pub reservation_id : String
  pub reason : String

-- The state dictionary.
pub record Ledger : Type 0 where
  pub session_date : String
  pub limit : ℕ
  pub journal_count : ℕ
  pub committed : ℕ
  pub reservations : Dict Held
  pub released : List Released

-- What stands at the budget's path.
pub data BudgetFile : Type 0 where
  missing unreadable : BudgetFile
  malformed : (session_date : String) (limit committed : ℕ) (truthy : Bool) → BudgetFile
  stored : Ledger → BudgetFile

-- The order journal: none, or its count of today's orders and whether it can be read.
pub data Journal : Type 0 where
  no_journal : Journal
  counts : ℕ → Bool → Journal

pub record Budget : Type 0 where
  pub limit : ℕ
  pub session_date : String
  pub journal : Journal
  pub file : BudgetFile
  pub is_locked : Bool
  pub disk_ok : Bool

pub record TransmissionReservation : Type 0 where
  pub reservation_id : String
  pub strategy_id : String
  pub reserved_at : String

-- `_journal_count`
abbrev count_of : Journal → Result BudgetError ℕ
count_of no_journal = ok 0
count_of (counts n true) = ok n
count_of (counts n false) = err BudgetError.journal_count_unknown

-- `_initial`
unfoldable pub initial : Budget → Result BudgetError Ledger
initial b = do
  n ← count_of b.journal
  ok (record {
    session_date = b.session_date;
    limit = b.limit;
    journal_count = n;
    committed = 0;
    reservations = [];
    released = [];
  })

-- `_load`, after `_read_json`.
abbrev pub load_file : Budget → BudgetFile → Result BudgetError Ledger
load_file b missing = initial b
load_file b unreadable = err BudgetError.unreadable
load_file b (malformed session_date limit committed truthy) =
    if not (str_eq session_date b.session_date)
    then (if not (committed == 0) || truthy then err BudgetError.prior_session else initial b)
    else if not (limit == b.limit)
    then err BudgetError.cap_changed
    else err BudgetError.malformed_map
load_file b (stored l) =
    if not (str_eq l.session_date b.session_date)
    then (if not (l.committed == 0) || not (length l.reservations == 0)
        then err BudgetError.prior_session
        else initial b)
    else if not (l.limit == b.limit)
    then err BudgetError.cap_changed
    else ok l

unfoldable pub load : Budget → Result BudgetError Ledger
load b = load_file b b.file

-- `_sync_journal`; the truncated difference is `max(0, committed - delta)`.
unfoldable pub sync_journal : Budget → Ledger → Result BudgetError Ledger
sync_journal b l = do
  current ← count_of b.journal
  refuse_if (ltb current l.journal_count) BudgetError.journal_backwards
  ok (record l { committed = l.committed - (current - l.journal_count); journal_count = current })

-- `_write`: the file is replaced whole, or the write fails and the old one stays.
unfoldable pub write : {A : Type 0} → Budget → Ledger → A → Result BudgetError A × Budget
write b l a =
    if b.disk_ok then (ok a, record b { file = stored l }) else (err BudgetError.write_failed, b)

-- `with self._exclusive()`: the lock file is made, and removed whichever way the body ends.
unfoldable pub exclusive :
    {A : Type 0} → (Budget → Result BudgetError A × Budget) → Budget → Result BudgetError A × Budget
exclusive body b =
    if b.is_locked
    then (err BudgetError.locked, b)
    else (let (r, b') = body (record b { is_locked = true }) in
        (r, record b' { is_locked = false }))

-- A body goes on with what a step returned, or raises and leaves the file as it is.
abbrev pub proceed :
    {L A : Type 0}
    → Budget
    → Result BudgetError L
    → (L → Result BudgetError A × Budget)
    → Result BudgetError A × Budget
proceed b (ok l) k = k l
proceed b (err e) k = (err e, b)

abbrev pub used : Ledger → ℕ
used l = l.journal_count + l.committed + length l.reservations

-- `attempt_id or uuid4().hex`
abbrev pub id_or : Option String → String → String
id_or none fresh = fresh
id_or (some id) fresh = if is_empty id then fresh else id

pub record ReserveCall : Type 0 where
  pub strategy_id : String
  pub attempt_id : Option String
  pub at : String
  pub fresh : String

-- What `reserve` computes of the loaded and synchronised state.
unfoldable pub add_reservation : Budget → ReserveCall → Ledger → Result BudgetError Ledger
add_reservation b c l = do
  refuse_if (leb b.limit (used l)) BudgetError.cap_reached
  refuse_if (is_some (lookup (id_or c.attempt_id c.fresh) l.reservations))
      BudgetError.duplicate_reservation
  ok (record l {
    reservations =
        insert (id_or c.attempt_id c.fresh)
          (record { strategy_id = c.strategy_id; reserved_at = c.at }) l.reservations;
  })

unfoldable pub reserve : ReserveCall → Budget → Result BudgetError TransmissionReservation × Budget
reserve c = exclusive (λ b.
    proceed b (do l ← load b; synced ← sync_journal b l; add_reservation b c synced)
      (λ l. write b l (record {
        reservation_id = id_or c.attempt_id c.fresh;
        strategy_id = c.strategy_id;
        reserved_at = c.at;
      })))

pub commit_reservation : String → Ledger → Result BudgetError Ledger
commit_reservation id l = do
  refuse_if (not (is_some (lookup id l.reservations))) BudgetError.unknown_reservation
  ok (record l { reservations = delete id l.reservations; committed = l.committed + 1 })

pub commit : String → Budget → Result BudgetError Unit × Budget
commit id = exclusive (λ b. proceed b (do l ← load b; commit_reservation id l) (λ l. write b l tt))

pub release_reservation : String → String → Ledger → Result BudgetError Ledger
release_reservation id reason l = do
  refuse_if (not (is_some (lookup id l.reservations))) BudgetError.unknown_reservation
  ok (record l {
    reservations = delete id l.reservations;
    released = l.released ++ record { reservation_id = id; reason = reason } ∷ [];
  })

pub release : String → String → Budget → Result BudgetError Unit × Budget
release id reason =
    exclusive (λ b. proceed b (do l ← load b; release_reservation id reason l) (λ l. write b l tt))

pub snapshot : Budget → Result BudgetError Ledger × Budget
snapshot = exclusive (λ b. proceed b (do l ← load b; sync_journal b l) (λ l. write b l l))
