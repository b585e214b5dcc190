-- ===== src/Receipts.antt =====
-- engine/src/engine/options/execution_outbox.py: `ReceiptJournal`, an append-only file of receipts that
-- processes share under a lock, so a call on it is one step. A time is a number of microseconds; `fresh` is
-- the `uuid4` that a call draws.
pub mod Versions
pub mod Contract
pub mod Intents
pub mod Recording
pub mod Recovery
pub mod Updates
pub mod Prepared
pub mod Pending
mod Examples
use ibkr_strategy_engine.Prelude.{
  ℕ, ◌+◌, ◌==◌, ltb, not, ◌&&◌, String, Bool, true, false, str_eq, Option, none, some, List, [],
  ◌∷◌, ◌++◌, is_empty, is_one_line, strip, select, all, if◌then◌else◌,
}
use ibkr_strategy_engine.Prelude.Dict.{Dict}
use ibkr_strategy_engine.Prelude.Result.{Result, ok, err}

pub data ReceiptKind : Type 0 where
  session_acquired scheduler_started tick_started tick_finished tick_unresolved tick_reconciled :
      ReceiptKind
  scan_started scan_shard_completed scan_completed scan_aborted logical_entry_claimed : ReceiptKind
  review_request_intent review_request_filed review_approval_consumed physical_send_intent :
      ReceiptKind
  broker_submission_observed order_outcome broker_reconciliation : ReceiptKind
  recovery_required recovery_cleared : ReceiptKind

-- The payload of a send intent.
pub record SendFacts : Type 0 where
  pub logical_entry_id : String
  pub proposal_revision : ℕ
  pub approval_id : String
  pub request_id : String
  pub spec_digest : String
  pub packet_digest : String

-- A payload that has the keys of the send facts, or another.
pub data Payload : Type 0 where
  send_facts : SendFacts → Payload
  details : Dict String → Payload

pub record Receipt : Type 0 where
  pub receipt_id : String
  pub kind : ReceiptKind
  pub saga_id : String
  pub version : ℕ
  pub at : ℕ
  pub idempotency_key : String
  pub payload : Payload

pub data ReceiptError : Type 0 where
  no_saga journal_error receipt_conflict : ReceiptError

-- The file: its lines, the last one with its newline or without, or one that cannot be read or has a line
-- that is not a receipt. A file that does not exist has no lines.
pub data JournalFile : Type 0 where
  unreadable : JournalFile
  readable unended : List Receipt → JournalFile

-- What the next write does. It fails with nothing written; it is short, and leaves a cut line, or one that
-- lacks only its newline; or the line is whole, and `fsync` fails.
pub data Disk : Type 0 where
  works refuses cuts cuts_newline unsynced : Disk

pub record Journal : Type 0 where
  pub file : JournalFile
  pub disk : Disk

pub record AppendCall : Type 0 where
  pub kind : ReceiptKind
  pub saga_id : String
  pub at : ℕ
  pub payload : Payload
  pub idempotency_key : String
  pub expected_version : Option ℕ
  pub fresh : String

-- `_read_unlocked`
abbrev pub read : JournalFile → Result ReceiptError (List Receipt)
read unreadable = err ReceiptError.journal_error
read (readable rs) = ok rs
read (unended rs) = ok rs

abbrev pub max : ℕ → ℕ → ℕ
max a b = if ltb a b then b else a

unfoldable pub current_version : String → List Receipt → ℕ
current_version saga [] = 0
current_version saga (r ∷ rs) =
    let rest = current_version saga rs in if str_eq r.saga_id saga then max r.version rest else rest

unfoldable pub find_key : String → List Receipt → Option Receipt
find_key key [] = none
find_key key (r ∷ rs) = if str_eq r.idempotency_key key then some r else find_key key rs

-- `by_key`: an empty key names nothing.
abbrev pub by_key : String → List Receipt → Option Receipt
by_key key rs = if is_empty key then none else find_key key rs

abbrev pub for_saga : String → List Receipt → List Receipt
for_saga saga rs = select (λ (r : Receipt). str_eq r.saga_id saga) rs

abbrev pub is_stale : Option ℕ → ℕ → Bool
is_stale none current = false
is_stale (some expected) current = not (current == expected)

abbrev pub new_receipt : AppendCall → ℕ → Receipt
new_receipt q current = record {
  receipt_id = q.fresh;
  kind = q.kind;
  saga_id = q.saga_id;
  version = current + 1;
  at = q.at;
  idempotency_key = q.idempotency_key;
  payload = q.payload;
}

abbrev pub Appended : Type 0
Appended = Result ReceiptError Receipt × Journal

abbrev is_one_line_field : String × String → Bool
is_one_line_field (key, value) = is_one_line key && is_one_line value

abbrev pub is_one_line_payload : Payload → Bool
is_one_line_payload (Payload.send_facts f) =
    is_one_line f.logical_entry_id
    && is_one_line f.approval_id
    && is_one_line f.request_id
    && is_one_line f.spec_digest
    && is_one_line f.packet_digest
is_one_line_payload (Payload.details d) = all is_one_line_field d

-- Whether the line that is written for a receipt is read back as one.
abbrev pub is_line : Receipt → Bool
is_line r =
    is_one_line r.receipt_id
    && is_one_line r.saga_id
    && is_one_line r.idempotency_key
    && is_one_line_payload r.payload

abbrev pub lines : Bool → List Receipt → JournalFile
lines true rs = readable rs
lines false rs = unended rs

-- The file with a new line, whole but perhaps for its newline, after a last line that may lack its own.
abbrev pub with_line : Receipt → List Receipt → Bool → Bool → JournalFile
with_line r rs ended ends = if ended && is_line r then lines ends (rs ++ r ∷ []) else unreadable

abbrev pub write_line : Receipt → List Receipt → Bool → Disk → Appended
write_line r rs ended works = (ok r, record { file = with_line r rs ended true; disk = works })
write_line r rs ended refuses =
    (err ReceiptError.journal_error, record { file = lines ended rs; disk = refuses })
write_line r rs ended cuts =
    (err ReceiptError.journal_error, record { file = unreadable; disk = cuts })
write_line r rs ended cuts_newline = (
  err ReceiptError.journal_error,
  record { file = with_line r rs ended false; disk = cuts_newline },
)
write_line r rs ended unsynced =
    (err ReceiptError.journal_error, record { file = with_line r rs ended true; disk = unsynced })

-- The receipt that the key already names, or a new one on a saga that is not stale.
abbrev pub append_once : AppendCall → List Receipt → Bool → Disk → Option Receipt → Appended
append_once q rs ended d (some r) = (ok r, record { file = lines ended rs; disk = d })
append_once q rs ended d none =
    if is_stale q.expected_version (current_version q.saga_id rs)
    then (err ReceiptError.receipt_conflict, record { file = lines ended rs; disk = d })
    else write_line (new_receipt q (current_version q.saga_id rs)) rs ended d

abbrev pub append_to : AppendCall → Disk → JournalFile → Appended
append_to q d unreadable = (err ReceiptError.journal_error, record { file = unreadable; disk = d })
append_to q d (readable rs) = append_once q rs true d (by_key q.idempotency_key rs)
append_to q d (unended rs) = append_once q rs false d (by_key q.idempotency_key rs)

unfoldable pub append : AppendCall → Journal → Appended
append q j =
    if is_empty (strip q.saga_id) then (err ReceiptError.no_saga, j) else append_to q j.disk j.file

-- Calls of any processes, each with what the disk does.
abbrev pub append_all : List (AppendCall × Disk) → Journal → Journal
append_all [] j = j
append_all ((q, d) ∷ calls) j = append_all calls (append q (record j { disk = d })).1
