-- ===== src/Outbox/Budget/Grants.antt =====
-- engine/src/engine/options/order_outbox.py: when a reservation is granted, and that releasing it gives its
-- place back.
use ibkr_strategy_engine.Prelude.{
  ℕ, ◌<◌, ◌≡◌, refl, ◌∙◌, String, true, false, none, some, [], ◌∷◌, ◌++◌, ◌==◌, arith, leb, str_eq,
  eq_iff,
}
use ibkr_strategy_engine.Prelude.Result.{Result, ok, ◌>>=◌}
use ibkr_strategy_engine.Prelude.Dict.{lookup, insert, lookup-insert, delete-insert_new}
use ibkr_strategy_engine.Outbox.Budget.{
  BudgetError, Held, Ledger, BudgetFile, missing, unreadable, malformed, stored, initial, Budget,
  load, load_file, sync_journal, write, exclusive, proceed, used, id_or, ReserveCall,
  add_reservation, reserve, release_reservation, release,
}

-- The state that `reserve` writes over `l`.
abbrev pub with_reservation : ReserveCall → Ledger → Ledger
with_reservation c l = record l {
  reservations =
      insert (id_or c.attempt_id c.fresh)
        (record { strategy_id = c.strategy_id; reserved_at = c.at }) l.reservations;
}

has_room : (m n : ℕ) → m < n → leb n m ≡ false
has_room m n h = ground arith

abbrev lock : Budget → Budget
lock b = record b { is_locked = true }

load_file-lock : (b : Budget) (f : BudgetFile) → load_file (lock b) f ≡ load_file b f
unfolding initial
load_file-lock b missing = refl
load_file-lock b unreadable = refl
load_file-lock b (malformed date limit committed truthy) = refl
load_file-lock b (stored l) = refl

-- A method whose computation gives `l` returns, and has written `l`.
returned :
    {A : Type 0} (b : Budget) (m : Budget → Result BudgetError Ledger) (k : Ledger → A) (l : Ledger)
    → b.is_locked ≡ false
    → b.disk_ok ≡ true
    → m (lock b) ≡ ok l
    → exclusive (λ c. proceed c (m c) (λ x. write c x (k x))) b
      ≡ (ok (k l), record b { file = stored l })
unfolding exclusive write
returned b m k l free works made = rw free (rw made (rw works refl))

-- With no lock held and a working disk, a state that loads and agrees with the journal, room under the cap,
-- and an id that is not reserved, a reservation is granted under that id and written.
reserve_grants :
    (c : ReserveCall) (b : Budget) (loaded l : Ledger)
    → b.is_locked ≡ false
    → b.disk_ok ≡ true
    → load b ≡ ok loaded
    → sync_journal b loaded ≡ ok l
    → used l < b.limit
    → lookup (id_or c.attempt_id c.fresh) l.reservations ≡ none
    → reserve c b ≡ (
      ok (record {
        reservation_id = id_or c.attempt_id c.fresh;
        strategy_id = c.strategy_id;
        reserved_at = c.at;
      }),
      record b { file = stored (with_reservation c l) },
    )
unfolding reserve load sync_journal add_reservation
reserve_grants c b loaded l free works loads synced room fresh =
    returned b (λ x. do y ← load x; z ← sync_journal x y; add_reservation x c z) _
      (with_reservation c l) free works
      (rw (load_file-lock b b.file)
        (rw loads (rw synced (rw (has_room (used l) b.limit room, fresh)))))

-- A state that loads is of the session's date and cap.
load_file-matches :
    (b : Budget) (f : BudgetFile) (l : Ledger)
    → load_file b f ≡ ok l
    → (str_eq l.session_date b.session_date ≡ true) × (l.limit ≡ b.limit)
unfolding initial
load_file-matches b missing l h =
    (ground (arith, eq_iff b.session_date b.session_date), ground arith)
load_file-matches b unreadable l h = cc
load_file-matches b (malformed date limit committed truthy) l h =
    (ground (arith, eq_iff b.session_date b.session_date), ground arith)
load_file-matches b (stored m) l h =
    (ground (arith, eq_iff b.session_date b.session_date), ground arith)

sync_journal-matches :
    (b : Budget) (k l : Ledger)
    → sync_journal b k ≡ ok l
    → (l.session_date ≡ k.session_date) × (l.limit ≡ k.limit)
unfolding sync_journal
sync_journal-matches b k l h = (ground arith, ground arith)

-- With no lock held and a working disk, a state that loads and agrees with the journal, room under the cap,
-- and an id that is not reserved, a reservation that is made and then released leaves the counts and the
-- reservations that there were, and a note of the release.
pub release-reserve :
    (c : ReserveCall) (b : Budget) (loaded l : Ledger) (reason : String)
    → b.is_locked ≡ false
    → b.disk_ok ≡ true
    → load b ≡ ok loaded
    → sync_journal b loaded ≡ ok l
    → used l < b.limit
    → lookup (id_or c.attempt_id c.fresh) l.reservations ≡ none
    → release (id_or c.attempt_id c.fresh) reason (reserve c b).1 ≡ (
      ok tt,
      record b {
        file = stored (record l {
          released =
              l.released
              ++ record { reservation_id = id_or c.attempt_id c.fresh; reason = reason } ∷ [];
        });
      },
    )
unfolding release load release_reservation
release-reserve c b loaded l reason free works loads synced room fresh =
    let granted = reserve_grants c b loaded l free works loads synced room fresh in
    let (dated, capped) = load_file-matches b b.file loaded loads in
    let (dated', capped') = sync_journal-matches b loaded l synced in
    let id = id_or c.attempt_id c.fresh in
    let entry : Held = record { strategy_id = c.strategy_id; reserved_at = c.at } in
    let same_day : str_eq l.session_date b.session_date ≡ true = rw dated' dated in
    let same_cap : (l.limit == b.limit) ≡ true = ground arith in
    let found : lookup id (insert id entry l.reservations) ≡ some entry =
      lookup-insert id id entry l.reservations ∙ rw ((eq_iff id id).1 refl) in
    rw granted (
      returned (record b { file = stored (with_reservation c l) })
        (λ x. do y ← load x; release_reservation id reason y) (λ _. tt)
        (record l { released = l.released ++ record { reservation_id = id; reason = reason } ∷ [] })
        free works
        (rw (same_day, same_cap) (rw (found, delete-insert_new id entry l.reservations fresh))))
