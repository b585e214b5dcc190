-- ===== src/Outbox/Budget/Counting.antt =====
-- engine/src/engine/options/order_outbox.py: what each method of `TransmissionBudget` does to the
-- count of transmissions and to the reservations held.
use ibkr_strategy_engine.Prelude.{
  ℕ, ◌+◌, ◌≤◌, ◌≡◌, refl, subst, inl, inr, String, Bool, true, false, str_eq, length, arith, eq_iff,
  Option-cases,
}
use ibkr_strategy_engine.Prelude.Result.{Result, ok, err}
use ibkr_strategy_engine.Prelude.Dict.{lookup, length-insert_new, length-delete}
use ibkr_strategy_engine.Outbox.Budget.{
  BudgetError, Ledger, BudgetFile, missing, unreadable, malformed, stored, Journal, no_journal,
  counts, Budget, initial, load_file, sync_journal, write, exclusive, proceed, id_or, ReserveCall,
  add_reservation, commit_reservation, release_reservation,
}

-- The orders of the day that the journal holds, readable or not.
abbrev pub journalled : Journal → ℕ
journalled no_journal = 0
journalled (counts n _) = n

-- The transmissions that a state accounts for, beside its reservations.
abbrev pub total : Ledger → ℕ
total l = l.journal_count + l.committed

abbrev pub held : Ledger → ℕ
held l = length l.reservations

-- A state that the budget can go on with: of its session and cap.
pub record IsCounted (b : Budget) (l : Ledger) : Type 0 where
  pub date : str_eq l.session_date b.session_date ≡ true
  pub cap : l.limit ≡ b.limit

-- What the journal counts since is never less than what it accounts for.
pub sync_journal-IsCounted :
    (b : Budget) (l l' : Ledger)
    → IsCounted b l
    → sync_journal b l ≡ ok l'
    → IsCounted b l' × (total l ≤ total l') × (held l' ≡ held l)
unfolding sync_journal
sync_journal-IsCounted b l l' g h = ground arith

pub add_reservation-IsCounted :
    (b : Budget) (c : ReserveCall) (l l' : Ledger)
    → IsCounted b l
    → add_reservation b c l ≡ ok l'
    → IsCounted b l'
      × (total l' ≡ total l)
      × (held l' ≡ held l + 1)
      × (total l' + held l' ≤ b.limit)
unfolding add_reservation
add_reservation-IsCounted b c l l' g h = ground (
  arith,
  length-insert_new (id_or c.attempt_id c.fresh)
      (record { strategy_id = c.strategy_id; reserved_at = c.at }) l.reservations,
)

pub commit_reservation-IsCounted :
    (b : Budget) (id : String) (l l' : Ledger)
    → IsCounted b l
    → commit_reservation id l ≡ ok l'
    → IsCounted b l' × (total l' ≡ total l + 1) × (held l' + 1 ≡ held l)
unfolding commit_reservation
commit_reservation-IsCounted b id l l' g h = elim (Option-cases (lookup id l.reservations)) [
  | inl e ↦ ground arith
  | inr (v, e) ↦ ground (arith, length-delete id v l.reservations e)
]

pub release_reservation-IsCounted :
    (b : Budget) (id reason : String) (l l' : Ledger)
    → IsCounted b l
    → release_reservation id reason l ≡ ok l'
    → IsCounted b l' × (total l' ≡ total l) × (held l' + 1 ≡ held l)
unfolding release_reservation
release_reservation-IsCounted b id reason l l' g h =
    elim (Option-cases (lookup id l.reservations)) [
      | inl e ↦ ground arith
      | inr (v, e) ↦ ground (arith, length-delete id v l.reservations e)
    ]

-- The file of a session that has been counting: none yet, or a state that it can go on with.
abbrev pub FileIsCounted : Budget → BudgetFile → Type 0
FileIsCounted b missing = Unit
FileIsCounted b (stored l) = IsCounted b l
FileIsCounted b _ = ⊥

abbrev pub file_total : Budget → BudgetFile → ℕ
file_total b (stored l) = total l
file_total b _ = journalled b.journal

abbrev pub file_held : BudgetFile → ℕ
file_held (stored l) = held l
file_held _ = 0

load_file_same :
    (b : Budget) (l l' : Ledger) → IsCounted b l → load_file b (stored l) ≡ ok l' → l ≡ l'
load_file_same b l l' g h = ground arith

pub load_file-IsCounted :
    (b : Budget) (f : BudgetFile) (l : Ledger)
    → FileIsCounted b f
    → load_file b f ≡ ok l
    → IsCounted b l × (total l ≡ file_total b f) × (held l ≡ file_held f)
unfolding initial
load_file-IsCounted b missing l g h =
    let today = (eq_iff b.session_date b.session_date).1 refl in ground arith
load_file-IsCounted b (stored l') l g h =
    let same : l' ≡ l = load_file_same b l' l g h in
    subst (λ (x : Ledger). IsCounted b x × (total x ≡ total l') × (held x ≡ held l')) same
      (g, refl, refl)
load_file-IsCounted b unreadable l g h = absurd g
load_file-IsCounted b (malformed _ _ _ _) l g h = absurd g

abbrev pub lock : Budget → Budget
lock b = record b { is_locked = true }

abbrev budget_of : ℕ → String → Journal → BudgetFile → Bool → Bool → Budget
budget_of limit date j file is_locked disk_ok = record {
  limit = limit;
  session_date = date;
  journal = j;
  file = file;
  is_locked = is_locked;
  disk_ok = disk_ok;
}

-- What a method leaves: the budget as it was, and an error; or the result, and the new state written.
pub data Outcome {A : Type 0} (b : Budget) (m : Budget → Result BudgetError Ledger) (f : Ledger → A)
    (r : Result BudgetError A × Budget) : Type 0 where
  failed : (e : BudgetError) → r.0 ≡ err e → r.1 ≡ b → Outcome b m f r
  wrote :
      (l : Ledger)
      → m (lock b) ≡ ok l
      → r.0 ≡ ok (f l)
      → r.1 ≡ record b { file = stored l }
      → Outcome b m f r

abbrev pub run_locked :
    {A : Type 0}
    → (Budget → Result BudgetError Ledger)
    → (Ledger → A)
    → Budget
    → Result BudgetError A × Budget
run_locked m f b = proceed b (m b) (λ l. write b l (f l))

-- By the lock, the disk, and what the step returns.
proceed-Outcome :
    {A : Type 0} (m : Budget → Result BudgetError Ledger) (f : Ledger → A) (limit : ℕ)
    (date : String) (j : Journal) (file : BudgetFile) (is_locked disk_ok : Bool)
    (r : Result BudgetError Ledger)
    → let b = budget_of limit date j file is_locked disk_ok in
      m (lock b) ≡ r → Outcome b m f (exclusive (run_locked m f) b)
unfolding exclusive write
proceed-Outcome m f limit date j file true disk_ok r h = Outcome.failed BudgetError.locked refl refl
proceed-Outcome m f limit date j file false disk_ok (err e) h = rw h (Outcome.failed e refl refl)
proceed-Outcome m f limit date j file false true (ok l) h = rw h (Outcome.wrote l h refl refl)
proceed-Outcome m f limit date j file false false (ok l) h =
    rw h (Outcome.failed BudgetError.write_failed refl refl)

pub exclusive-Outcome :
    {A : Type 0} (m : Budget → Result BudgetError Ledger) (f : Ledger → A) (b : Budget)
    → Outcome b m f (exclusive (run_locked m f) b)
exclusive-Outcome m f b =
    proceed-Outcome m f b.limit b.session_date b.journal b.file b.is_locked b.disk_ok (m (lock b))
      refl
