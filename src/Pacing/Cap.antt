-- ===== src/Pacing/Cap.antt =====
-- engine/src/engine/options/pacing_ledger.py: reservations, and the rolling cap on broker requests over every
-- sequence of calls.
use ibkr_strategy_engine.Prelude.{
  ℕ, ◌+◌, ◌≤◌, ◌≡◌, refl, ◌∙◌, subst, ℤ, String, true, ◌&&◌, Option, none, some, [], ◌∷◌, ◌++◌,
  arith, inl, inr, Bool-cases,
}
use ibkr_strategy_engine.Prelude.Result.{Result, ok, err}
use ibkr_strategy_engine.Pacing.Tables.{
  RequestKind, PacingReservation, Ledger, limit_of, reap, consumed, outstanding, is_held,
  is_discovery,
}
use ibkr_strategy_engine.Pacing.{
  PacingError, Config, ReserveCall, exceeds, existing, grant, conflicts, new_reservation,
  check_call, after_check, reserve, before, commit, mark_unknown, release, penalize,
}
use ibkr_strategy_engine.Pacing.Counting.{weight, held-append}
use ibkr_strategy_engine.Pacing.Tables.{same_kind}
use ibkr_strategy_engine.Pacing.Paced.{amount, cap, IsPaced, later-IsPaced, reap-IsPaced}
use ibkr_strategy_engine.Pacing.Rows.{
  commit-IsPaced, mark_unknown-IsPaced, release-IsPaced, penalize-IsPaced,
}

same_kind_eq : (a b : RequestKind) → same_kind a b ≡ true → a ≡ b
same_kind_eq RequestKind.historical RequestKind.historical h = refl
same_kind_eq RequestKind.general RequestKind.general h = refl
same_kind_eq RequestKind.historical RequestKind.general h = cc
same_kind_eq RequestKind.general RequestKind.historical h = cc

-- The tables with a new row of reservations.
abbrev pub with_row : Ledger → PacingReservation → Ledger
with_row l r = record l { reservations = l.reservations ++ r ∷ [] }

pub with_row-amount :
    (kind : RequestKind) (now : ℕ) (l : Ledger) (r : PacingReservation)
    → amount kind now (with_row l r) ≡ amount kind now l + weight (is_held kind now r) r.cost
with_row-amount RequestKind.historical now l r =
    omega (arith, held-append RequestKind.historical now l.reservations r)
with_row-amount RequestKind.general now l r =
    omega (arith, held-append RequestKind.general now l.reservations r)

pub with_row-cap :
    (kind : RequestKind) (l : Ledger) (r : PacingReservation) → cap (with_row l r) kind ≡ cap l kind
with_row-cap RequestKind.historical l r = refl
with_row-cap RequestKind.general l r = refl

with_row-IsPaced :
    (base : Ledger) (now : ℕ) (l : Ledger) (r : PacingReservation)
    → IsPaced base now l
    → amount r.kind now l + r.cost ≤ cap l r.kind
    → IsPaced base now (with_row l r)
with_row-IsPaced base now l r v room = record {
  fixed = λ kind. with_row-cap kind l r ∙ v.fixed kind;
  within = λ kind. by_kind kind;
}
  where
    by_kind : (kind : RequestKind) → amount kind now (with_row l r) ≤ cap (with_row l r) kind
    by_kind kind = elim (Bool-cases (same_kind r.kind kind)) [
      | inl same ↦
          let e = same_kind_eq r.kind kind same in
          let room' : amount kind now l + r.cost ≤ cap l kind =
            subst (λ (k : RequestKind). amount k now l + r.cost ≤ cap l k) e room in
          ground (arith, with_row-amount kind now l r, with_row-cap kind l r)
      | inr other ↦
          ground (arith, with_row-amount kind now l r, with_row-cap kind l r, v.within kind)
    ]

pub reserve-IsPaced :
    (base : Ledger) (c : Config) (q : ReserveCall) (l : Ledger)
    → IsPaced base q.now l
    → IsPaced base q.now (reserve c q l).1
unfolding reserve
reserve-IsPaced base c q l v = checked (check_call c q)
  where
    m : Ledger
    m = reap q.now l

    granted : (o : Option PacingReservation) → IsPaced base q.now (grant c q l m o).1
    granted (some r) = reap-IsPaced base q.now l v
    granted none =
        elim (Bool-cases
          (is_discovery q.priority && before q.now (limit_of m q.kind).paused_until)) [
            | inl paused ↦ rw paused (reap-IsPaced base q.now l v)
            | inr open_now ↦ elim (Bool-cases (exceeds c q m)) [
              | inl full ↦ rw (open_now, full) (reap-IsPaced base q.now l v)
              | inr room ↦ elim (Bool-cases (conflicts q m.reservations)) [
                | inl taken ↦ rw (open_now, room, taken) v
                | inr free ↦
                    rw (open_now, room, free)
                      (with_row-IsPaced base q.now m (new_reservation c q)
                        (reap-IsPaced base q.now l v) (ground arith))
              ]
            ]
          ]

    checked :
        (r : Result PacingError Unit)
        → IsPaced base q.now
            (after_check r l (grant c q l m (existing q.request_key m.reservations))).1
    checked (ok _) = granted (existing q.request_key m.reservations)
    checked (err e) = v

-- One call at a time, on a clock that does not go back.
pub data Step (c : Config) : ℕ → Ledger → ℕ → Ledger → Type 0 where
  reserving :
      (t : ℕ) (l : Ledger) (q : ReserveCall) → t ≤ q.now → Step c t l q.now (reserve c q l).1
  committing :
      (t : ℕ) (l : Ledger) (id : String) (a : Option ℤ) (now : ℕ)
      → t ≤ now
      → Step c t l now (commit id a now l).1
  marking :
      (t : ℕ) (l : Ledger) (id : String) (now : ℕ)
      → t ≤ now
      → Step c t l now (mark_unknown id now l).1
  releasing :
      (t : ℕ) (l : Ledger) (id : String) (now : ℕ) → t ≤ now → Step c t l now (release id now l).1
  penalizing :
      (t : ℕ) (l : Ledger) (kind : RequestKind) (pause_for : Option ℕ) (now : ℕ)
      → t ≤ now
      → Step c t l now (penalize kind pause_for now l)
  reaping : (t : ℕ) (l : Ledger) (now : ℕ) → t ≤ now → Step c t l now (reap now l)

pub data Run (c : Config) (start : ℕ) (base : Ledger) : ℕ → Ledger → Type 0 where
  fresh : Run c start base start base
  then_step :
      {t now : ℕ} {l m : Ledger} → Run c start base t l → Step c t l now m → Run c start base now m

Step-IsPaced :
    (c : Config) (base : Ledger) {t now : ℕ} {l m : Ledger}
    → Step c t l now m
    → IsPaced base t l
    → IsPaced base now m
Step-IsPaced c base (Step.reserving t l q le) v =
    reserve-IsPaced base c q l (later-IsPaced base t q.now l le v)
Step-IsPaced c base (Step.committing t l id a now le) v =
    commit-IsPaced base now l (later-IsPaced base t now l le v) id a
Step-IsPaced c base (Step.marking t l id now le) v =
    mark_unknown-IsPaced base now l (later-IsPaced base t now l le v) id
Step-IsPaced c base (Step.releasing t l id now le) v =
    release-IsPaced base now l (later-IsPaced base t now l le v) id
Step-IsPaced c base (Step.penalizing t l kind pause_for now le) v =
    penalize-IsPaced base now l (later-IsPaced base t now l le v) kind pause_for
Step-IsPaced c base (Step.reaping t l now le) v =
    reap-IsPaced base now l (later-IsPaced base t now l le v)

Run-IsPaced :
    (c : Config) (start : ℕ) (base : Ledger) {t : ℕ} {l : Ledger}
    → IsPaced base start base
    → Run c start base t l
    → IsPaced base t l
Run-IsPaced c start base v Run.fresh = v
Run-IsPaced c start base v (Run.then_step r st) =
    Step-IsPaced c base st (Run-IsPaced c start base v r)

-- From tables without rows, however the calls of a session follow each other on a clock that does not go
-- back, the requests of each kind that were used in the window up to now and those that are reserved are
-- together within the kind's limit.
pub rolling_cap :
    (c : Config) (start t : ℕ) (base l : Ledger) (kind : RequestKind)
    → base.usage ≡ []
    → base.reservations ≡ []
    → Run c start base t l
    → consumed kind t l + outstanding kind t l ≤ (limit_of base kind).limit_count
rolling_cap c start t base l kind unused unreserved r =
    let v = Run-IsPaced c start base empty r in omega (arith, v.fixed kind, v.within kind)
  where
    empty : IsPaced base start base
    empty = record { fixed = λ k. refl; within = λ k. rw (unused, unreserved) (omega arith) }
