-- ===== src/Outbox/Budget/Moves.antt =====
-- engine/src/engine/options/order_outbox.py: each step of a session keeps the budget's file countable.
use ibkr_strategy_engine.Prelude.{◌+◌, ◌≤◌, ◌≡◌, refl, ◌∙◌, String, Bool, arith}
use ibkr_strategy_engine.Prelude.Result.{Result, ok, ◌>>=◌, >>=-eq-ok}
use ibkr_strategy_engine.Outbox.Budget.{
  BudgetError, Ledger, BudgetFile, missing, unreadable, malformed, stored, Journal, no_journal,
  counts, Budget, load, sync_journal, ReserveCall, add_reservation, commit_reservation,
  release_reservation,
}
use ibkr_strategy_engine.Outbox.Budget.Counting.{
  journalled, total, held, IsCounted, sync_journal-IsCounted, add_reservation-IsCounted,
  commit_reservation-IsCounted, release_reservation-IsCounted, FileIsCounted, file_total, file_held,
  load_file-IsCounted, lock,
}
use ibkr_strategy_engine.Outbox.Budget.Session.{one_more, readable_as}

IsCounted-unlock : (b : Budget) (l : Ledger) → IsCounted (lock b) l → IsCounted b l
IsCounted-unlock b l g = record { date = g.date; cap = g.cap }

pub FileIsCounted-lock :
    (b : Budget) (f : BudgetFile) → FileIsCounted b f → FileIsCounted (lock b) f
FileIsCounted-lock b missing g = g
FileIsCounted-lock b (stored l) g = record { date = g.date; cap = g.cap }
FileIsCounted-lock b unreadable g = g
FileIsCounted-lock b (malformed _ _ _ _) g = g

file_total-lock : (b : Budget) (f : BudgetFile) → file_total (lock b) f ≡ file_total b f
file_total-lock b missing = refl
file_total-lock b _ = refl

module _ (b : Budget) (g : FileIsCounted b b.file) where
  pub loaded :
      (l : Ledger)
      → load (lock b) ≡ ok l
      → IsCounted (lock b) l × (total l ≡ file_total b b.file) × (held l ≡ file_held b.file)
  unfolding load
  loaded l h =
      let (a, t, e) = load_file-IsCounted (lock b) b.file l (FileIsCounted-lock b b.file g) h in
      (a, t ∙ file_total-lock b b.file, e)

  pub reserved :
      (c : ReserveCall) (l : Ledger)
      → (do l ← load (lock b); synced ← sync_journal (lock b) l; add_reservation (lock b) c synced)
        ≡ ok l
      → IsCounted b l
        × (file_total b b.file ≤ total l)
        × (held l ≡ file_held b.file + 1)
        × (total l + held l ≤ b.limit)
  reserved c l h =
      let (l0, e0, h0) = >>=-eq-ok (load (lock b)) _ h in
      let (l1, e1, h1) = >>=-eq-ok (sync_journal (lock b) l0) _ h0 in
      let (g0, t0, n0) = loaded l0 e0 in
      let (g1, t1, n1) = sync_journal-IsCounted (lock b) l0 l1 g0 e1 in
      let (g2, t2, n2, r) = add_reservation-IsCounted (lock b) c l1 l g1 h1 in
      (IsCounted-unlock b l g2, omega arith, omega arith, r)

  pub committed :
      (id : String) (l : Ledger)
      → (do l ← load (lock b); commit_reservation id l) ≡ ok l
      → IsCounted b l × (total l ≡ file_total b b.file + 1) × (held l + 1 ≡ file_held b.file)
  committed id l h =
      let (l0, e0, h0) = >>=-eq-ok (load (lock b)) _ h in
      let (g0, t0, n0) = loaded l0 e0 in
      let (g1, t1, n1) = commit_reservation-IsCounted (lock b) id l0 l g0 h0 in
      (IsCounted-unlock b l g1, omega arith, omega arith)

  pub released :
      (id reason : String) (l : Ledger)
      → (do l ← load (lock b); release_reservation id reason l) ≡ ok l
      → IsCounted b l × (total l ≡ file_total b b.file) × (held l + 1 ≡ file_held b.file)
  released id reason l h =
      let (l0, e0, h0) = >>=-eq-ok (load (lock b)) _ h in
      let (g0, t0, n0) = loaded l0 e0 in
      let (g1, t1, n1) = release_reservation-IsCounted (lock b) id reason l0 l g0 h0 in
      (IsCounted-unlock b l g1, omega arith, omega arith)

  pub read :
      (l : Ledger)
      → (do l ← load (lock b); sync_journal (lock b) l) ≡ ok l
      → IsCounted b l × (file_total b b.file ≤ total l) × (held l ≡ file_held b.file)
  read l h =
      let (l0, e0, h0) = >>=-eq-ok (load (lock b)) _ h in
      let (g0, t0, n0) = loaded l0 e0 in
      let (g1, t1, n1) = sync_journal-IsCounted (lock b) l0 l g0 h0 in
      (IsCounted-unlock b l g1, omega arith, n1 ∙ n0)

pub IsCounted-write :
    (b : Budget) (l : Ledger) → IsCounted b l → IsCounted (record b { file = stored l }) l
IsCounted-write b l g = record { date = g.date; cap = g.cap }

abbrev pub commit_step : String → Budget → Result BudgetError Ledger
commit_step id b = do l ← load b; commit_reservation id l

journalled-readable : (r : Bool) (j : Journal) → journalled (readable_as r j) ≡ journalled j
journalled-readable r no_journal = refl
journalled-readable r (counts n _) = refl

-- A change of the environment that leaves the journal's count leaves the file as good as it was.
pub environment-counted :
    (b : Budget) (f : BudgetFile) (is_locked disk_ok r : Bool)
    → let b' = record b {
      is_locked = is_locked;
      disk_ok = disk_ok;
      journal = readable_as r b.journal;
    } in
      FileIsCounted b f → FileIsCounted b' f × (file_total b' f ≡ file_total b f)
environment-counted b missing is_locked disk_ok r g =
    rw (journalled-readable r b.journal) (tt, refl)
environment-counted b (stored l) is_locked disk_ok r g =
    (record { date = g.date; cap = g.cap }, refl)
environment-counted b unreadable is_locked disk_ok r g = absurd g
environment-counted b (malformed _ _ _ _) is_locked disk_ok r g = absurd g

journalled-le_one_more : (j : Journal) → journalled j ≤ journalled (one_more j)
journalled-le_one_more no_journal = omega arith
journalled-le_one_more (counts n _) = omega arith

-- Any order may enter the journal: no less is accounted for than before.
pub journalling-counted :
    (b : Budget) (f : BudgetFile)
    → let b' = record b { journal = one_more b.journal } in
      FileIsCounted b f → FileIsCounted b' f × (file_total b f ≤ file_total b' f)
journalling-counted b missing g = (tt, journalled-le_one_more b.journal)
journalling-counted b (stored l) g = (record { date = g.date; cap = g.cap }, omega arith)
journalling-counted b unreadable g = absurd g
journalling-counted b (malformed _ _ _ _) g = absurd g
