-- ===== src/Outbox/Budget/Session.antt =====
-- engine/src/engine/options/order_outbox.py: a session of processes that share one transmission budget,
-- as transmit.py uses it for the orders that open a position: a reservation comes before the broker call, a commit after it, and a release
-- only for a reservation that no broker call used. Processes die and disks fail at any point.
use ibkr_strategy_engine.Prelude.{ℕ, suc, ◌+◌, ◌-◌, ◌≤◌, ◌<◌, ◌≡◌, String, Bool}
use ibkr_strategy_engine.Prelude.Result.{Result, ok, err}
use ibkr_strategy_engine.Outbox.Budget.{
  BudgetError, missing, Journal, no_journal, counts, Budget, ReserveCall, reserve, commit, release,
  snapshot,
}
use ibkr_strategy_engine.Outbox.Budget.Counting.{journalled, FileIsCounted, file_total, file_held}

-- The budget, the sends whose reservation is not committed yet, and all sends of the session.
pub record Session : Type 0 where
  pub budget : Budget
  pub in_flight : ℕ
  pub sent : ℕ

abbrev pub held_now : Session → ℕ
held_now s = file_held s.budget.file

abbrev total_now : Session → ℕ
total_now s = file_total s.budget s.budget.file

-- One more order in the journal.
abbrev pub one_more : Journal → Journal
one_more no_journal = no_journal
one_more (counts n readable) = counts (suc n) readable

abbrev pub readable_as : Bool → Journal → Journal
readable_as b no_journal = no_journal
readable_as b (counts n _) = counts n b

-- A commit that returned has accounted for one send.
abbrev pub after_commit : Result BudgetError Unit → ℕ → ℕ
after_commit (ok _) n = n - 1
after_commit (err _) n = n

pub data Step : Session → Session → Type 0 where
  reserving :
      (s : Session) (c : ReserveCall) → Step s (record s { budget = (reserve c s.budget).1 })
  -- A broker call, under a reservation that no other call has used.
  sending :
      (s : Session)
      → s.in_flight < held_now s
      → Step s (record s { in_flight = s.in_flight + 1; sent = s.sent + 1 })
  -- A commit follows a broker call.
  committing :
      (s : Session) (id : String)
      → 0 < s.in_flight
      → Step s (record s {
        budget = (commit id s.budget).1;
        in_flight = after_commit (commit id s.budget).0 s.in_flight;
      })
  -- A release is of a reservation that no broker call used.
  releasing :
      (s : Session) (id reason : String)
      → s.in_flight < held_now s
      → Step s (record s { budget = (release id reason s.budget).1 })
  reading : (s : Session) → Step s (record s { budget = (snapshot s.budget).1 })
  -- An order enters the journal: one that was committed, one whose commit failed, or one that never had
  -- a reservation, as the exits that runner.py journals.
  journalling :
      (s : Session)
      → Step s (record s { budget = record (s.budget) { journal = one_more s.budget.journal } })
  -- A process dies holding the lock, or the operator removes the lock; the disk and the journal fail,
  -- or work again.
  environment :
      (s : Session) (is_locked disk_ok readable : Bool)
      → Step s (record s {
        budget = record (s.budget) {
          is_locked = is_locked;
          disk_ok = disk_ok;
          journal = readable_as readable s.budget.journal;
        };
      })

pub data Reach (s : Session) : Session → Type 0 where
  here : Reach s s
  next : {t u : Session} → Reach s t → Step t u → Reach s u

-- What holds between two steps, `base` being the journal's count at the start of the session and `cap`
-- the limit.
pub record Inv (base cap : ℕ) (s : Session) : Type 0 where
  pub fixed : s.budget.limit ≡ cap
  pub counted : FileIsCounted s.budget s.budget.file
  pub covered : s.in_flight ≤ held_now s
  pub accounted : s.sent + base ≤ total_now s + s.in_flight
  pub bounded : s.sent + base + held_now s ≤ cap + s.in_flight

-- The start of a session: no file yet, no sends, and a journal within the cap.
pub record IsFresh (s : Session) : Type 0 where
  pub no_file : s.budget.file ≡ missing
  pub no_sends : s.sent ≡ 0
  pub no_flights : s.in_flight ≡ 0
  pub within : journalled s.budget.journal ≤ s.budget.limit
