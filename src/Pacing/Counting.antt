-- ===== src/Pacing/Counting.antt =====
-- engine/src/engine/options/pacing_ledger.py: how time, the expiry and each change of a row move the two
-- sums that a reservation is checked against.
use ibkr_strategy_engine.Prelude.{
  ℕ, ◌+◌, ◌≤◌, ◌≡◌, refl, subst, String, Bool, true, false, str_eq, ltb, some, List, [], ◌∷◌, ◌++◌,
  sum_by, select, arith, if◌then◌else◌, inl, inr, Bool-cases,
}
use ibkr_strategy_engine.Pacing.Tables.{
  RequestKind, PacingReservation, Usage, is_active, find, update_row, expire, is_recent, is_held,
}

abbrev pub used : RequestKind → ℕ → ℕ → List Usage → ℕ
used kind window now us = sum_by (λ u. u.cost) (select (is_recent kind window now) us)

abbrev pub held : RequestKind → ℕ → List PacingReservation → ℕ
held kind now rs = sum_by (λ r. r.cost) (select (is_held kind now) rs)

abbrev pub weight : Bool → ℕ → ℕ
weight b n = if b then n else 0

pub used_later :
    (kind : RequestKind) (window t now : ℕ) (us : List Usage)
    → t ≤ now
    → used kind window now us ≤ used kind window t us
used_later kind window t now [] le = omega arith
used_later kind window t now (u ∷ us) le = ground (arith, used_later kind window t now us le)

pub held_later :
    (kind : RequestKind) (t now : ℕ) (rs : List PacingReservation)
    → t ≤ now
    → held kind now rs ≤ held kind t rs
held_later kind t now [] le = omega arith
held_later kind t now (r ∷ rs) le = ground (arith, held_later kind t now rs le)

pub held-expire :
    (kind : RequestKind) (now : ℕ) (rs : List PacingReservation)
    → held kind now (expire now rs) ≡ held kind now rs
unfolding expire
held-expire kind now [] = refl
held-expire kind now (r ∷ rs) = ground (arith, held-expire kind now rs)

pub used-append :
    (kind : RequestKind) (window now : ℕ) (us : List Usage) (u : Usage)
    → used kind window now (us ++ u ∷ [])
      ≡ used kind window now us + weight (is_recent kind window now u) u.cost
used-append kind window now [] u = ground arith
used-append kind window now (v ∷ us) u = ground (arith, used-append kind window now us u)

pub held-append :
    (kind : RequestKind) (now : ℕ) (rs : List PacingReservation) (r : PacingReservation)
    → held kind now (rs ++ r ∷ []) ≡ held kind now rs + weight (is_held kind now r) r.cost
held-append kind now [] r = ground arith
held-append kind now (x ∷ rs) r = ground (arith, held-append kind now rs r)

-- Updates that end a reservation.
abbrev pub IsEnding : (PacingReservation → PacingReservation) → Type 0
IsEnding set = (x : PacingReservation) → is_active (set x).state ≡ false

pub held-update_le :
    (kind : RequestKind) (now : ℕ) (id : String) (set : PacingReservation → PacingReservation)
    (rs : List PacingReservation)
    → IsEnding set
    → held kind now (update_row id set rs) ≤ held kind now rs
unfolding update_row
held-update_le kind now id set [] ends = omega arith
held-update_le kind now id set (r ∷ rs) ends =
    ground (arith, ends r, held-update_le kind now id set rs ends)

-- Ending the row that is found gives back what it held.
pub held-update :
    (kind : RequestKind) (now : ℕ) (id : String) (set : PacingReservation → PacingReservation)
    (rs : List PacingReservation) (r : PacingReservation)
    → IsEnding set
    → find id rs ≡ some r
    → held kind now (update_row id set rs) + weight (is_held kind now r) r.cost ≤ held kind now rs
unfolding update_row find
held-update kind now id set [] r ends found = absurd (ground arith)
held-update kind now id set (x ∷ rs) r ends found = elim (Bool-cases (str_eq x.reservation_id id)) [
  | inl here ↦
      let same : x ≡ r = cc (rw here at found) in
      subst
        (λ (y : PacingReservation).
          held kind now (update_row id set (x ∷ rs)) + weight (is_held kind now y) y.cost
          ≤ held kind now (x ∷ rs))
        same (rw here (ground (arith, ends x, held-update_le kind now id set rs ends)))
  | inr there ↦ ground (arith, held-update kind now id set rs r ends)
]

-- A row that is active after the expiry has not come to its time.
pub find-expire :
    (now : ℕ) (id : String) (rs : List PacingReservation) (r : PacingReservation)
    → find id (expire now rs) ≡ some r
    → is_active r.state ≡ true
    → ltb now r.expires_at ≡ true
unfolding expire find
find-expire now id [] r found alive = absurd (ground arith)
find-expire now id (x ∷ rs) r found alive = ground (arith, find-expire now id rs r)
