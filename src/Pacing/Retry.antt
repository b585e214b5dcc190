-- ===== src/Pacing/Retry.antt =====
-- engine/src/engine/options/pacing_ledger.py: a call that is tried again under its request key.
use ibkr_strategy_engine.Prelude.{
  ◌≡◌, refl, ap, ◌∙◌, ℕ, String, true, false, eq_iff, none, some, is_empty, arith, List, [], ◌∷◌,
  ◌++◌, inl, inr, Bool-cases, Option-cases,
}
use ibkr_strategy_engine.Prelude.Result.{Result, ok, err}
use ibkr_strategy_engine.Pacing.Tables.{
  ReservationState, PacingReservation, Ledger, find_key, has_key, is_due, expire, reap,
}
use ibkr_strategy_engine.Pacing.{
  PacingError, Config, ReserveCall, existing, grant, new_reservation, check_call, after_check,
  reserve,
}
use ibkr_strategy_engine.Pacing.Grants.{granted_new}

-- The row of a key keeps its place when rows expire.
find_key-expire :
    (now : ℕ) (key : String) (rs : List PacingReservation) (r : PacingReservation)
    → find_key key rs ≡ some r
    → (r' : PacingReservation) × (find_key key (expire now rs) ≡ some r')
      × (r'.reservation_id ≡ r.reservation_id)
unfolding find_key expire
find_key-expire now key [] r found = absurd (ground arith)
find_key-expire now key (x ∷ rs) r found = elim (Bool-cases (has_key key x.request_key)) [
  | inl here ↦
      let same : x ≡ r = cc (rw here at found) in
      elim (Bool-cases (is_due now x)) [
        | inl due ↦ (
          record x { state = ReservationState.expired },
          rw (due, here) refl,
          ap (λ (y : PacingReservation). y.reservation_id) same,
        )
        | inr early ↦
            (x, rw (early, here) refl, ap (λ (y : PacingReservation). y.reservation_id) same)
      ]
  | inr there ↦
      let (r', at, same) = find_key-expire now key rs r (rw there at found) in
      elim (Bool-cases (is_due now x)) [
        | inl due ↦ (r', rw (due, there) at, same)
        | inr early ↦ (r', rw (early, there) at, same)
      ]
]

find_key-append :
    (key : String) (rs : List PacingReservation) (x : PacingReservation)
    → find_key key rs ≡ none
    → has_key key x.request_key ≡ true
    → find_key key (rs ++ x ∷ []) ≡ some x
unfolding find_key
find_key-append key [] x h own = rw own refl
find_key-append key (y ∷ rs) x h own = elim (Bool-cases (has_key key y.request_key)) [
  | inl here ↦ absurd (ground arith)
  | inr there ↦ rw there (find_key-append key rs x (rw there at h) own)
]

-- A call under a known key gives the row of the key, when it is valid.
granted_old :
    (c : Config) (q : ReserveCall) (l : Ledger) (r x : PacingReservation)
    → existing q.request_key (reap q.now l).reservations ≡ some x
    → (reserve c q l).0 ≡ ok (some r)
    → ((reserve c q l).1 ≡ reap q.now l) × (x ≡ r)
unfolding reserve
granted_old c q l r x known h = rw known (by_check (check_call c q) (rw known at h))
  where
    by_check :
        (v : Result PacingError Unit)
        → (after_check v l (grant c q l (reap q.now l) (some x))).0 ≡ ok (some r)
        → ((after_check v l (grant c q l (reap q.now l) (some x))).1 ≡ reap q.now l) × (x ≡ r)
    by_check (ok _) h = (refl, cc)
    by_check (err e) h = cc

-- What a reservation leaves under its key.
find_key-reserve :
    (c : Config) (q : ReserveCall) (l : Ledger) (r : PacingReservation) (key : String)
    → is_empty key ≡ false
    → q.request_key ≡ some key
    → (reserve c q l).0 ≡ ok (some r)
    → find_key key (reserve c q l).1.reservations ≡ some r
find_key-reserve c q l r key named own granted =
    elim (Option-cases (find_key key (reap q.now l).reservations)) [
      | inl fresh ↦
          let (tables, new, _) = granted_new c q l r (rw (own, named) fresh) granted in
          let mine : has_key key q.request_key ≡ true = rw own ((eq_iff key key).1 refl) in
          rw (tables, new)
            (find_key-append key (reap q.now l).reservations (new_reservation c q) fresh mine)
      | inr (x, old) ↦
          let (tables, same) = granted_old c q l r x (rw (own, named) old) granted in
          rw tables (old ∙ ap some same)
    ]

retried :
    (c : Config) (p : ReserveCall) (l : Ledger) (x : PacingReservation)
    → check_call c p ≡ ok tt
    → existing p.request_key (reap p.now l).reservations ≡ some x
    → reserve c p l ≡ (ok (some x), reap p.now l)
unfolding reserve
retried c p l x valid known = rw (valid, known) refl

-- A valid call under the key of a call that was granted gives the reservation of that call, whatever it
-- asks for and in whatever state the reservation then is, and adds no row.
pub reserve_retry :
    (c : Config) (q p : ReserveCall) (l : Ledger) (r : PacingReservation) (key : String)
    → is_empty key ≡ false
    → q.request_key ≡ some key
    → p.request_key ≡ some key
    → (reserve c q l).0 ≡ ok (some r)
    → check_call c p ≡ ok tt
    → (x : PacingReservation) × (x.reservation_id ≡ r.reservation_id)
      × (reserve c p (reserve c q l).1 ≡ (ok (some x), reap p.now (reserve c q l).1))
unfolding reap
reserve_retry c q p l r key named own own' granted valid =
    let m = (reserve c q l).1 in
    let (x, found, same) =
      find_key-expire p.now key m.reservations r (find_key-reserve c q l r key named own granted) in
    (x, same, retried c p m x valid (rw (own', named) found))
