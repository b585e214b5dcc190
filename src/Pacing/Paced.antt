-- ===== src/Pacing/Paced.antt =====
-- engine/src/engine/options/pacing_ledger.py: the state between calls: no kind of request is over its
-- limit.
use ibkr_strategy_engine.Prelude.{
  ℕ, ◌+◌, ◌≤◌, ◌≡◌, refl, ◌∙◌, String, true, ltb, some, [], ◌∷◌, ◌++◌, arith,
}
use ibkr_strategy_engine.Pacing.Tables.{
  RequestKind, PacingReservation, Ledger, limit_of, is_active, find, update_row, reap, consumed,
  outstanding, is_held,
}
use ibkr_strategy_engine.Pacing.{usage_of}
use ibkr_strategy_engine.Pacing.Counting.{
  used, held, weight, used_later, held_later, held-expire, used-append, IsEnding, held-update,
}

-- The requests of the window and those reserved, of one kind.
abbrev pub amount : RequestKind → ℕ → Ledger → ℕ
amount kind now l = consumed kind now l + outstanding kind now l

abbrev pub cap : Ledger → RequestKind → ℕ
cap l kind = (limit_of l kind).limit_count

-- The limits are those of `base`, and no kind is over its own.
pub record IsPaced (base : Ledger) (now : ℕ) (l : Ledger) : Type 0 where
  pub fixed : (kind : RequestKind) → cap l kind ≡ cap base kind
  pub within : (kind : RequestKind) → amount kind now l ≤ cap l kind

-- Time passes.
pub later-IsPaced :
    (base : Ledger) (t now : ℕ) (l : Ledger) → t ≤ now → IsPaced base t l → IsPaced base now l
later-IsPaced base t now l le v = record {
  fixed = v.fixed;
  within = λ kind. omega (
    arith,
    v.within kind,
    used_later kind (limit_of l kind).window t now l.usage le,
    held_later kind t now l.reservations le,
  );
}

-- The tables change so that no kind counts more.
pub lighter :
    (base : Ledger) (now : ℕ) (l m : Ledger)
    → ((kind : RequestKind) → cap m kind ≡ cap l kind)
    → ((kind : RequestKind) → amount kind now m ≤ amount kind now l)
    → IsPaced base now l
    → IsPaced base now m
lighter base now l m same le v = record {
  fixed = λ kind. same kind ∙ v.fixed kind;
  within = λ kind. omega (arith, same kind, le kind, v.within kind);
}

pub reap-amount :
    (kind : RequestKind) (now : ℕ) (l : Ledger) → amount kind now (reap now l) ≡ amount kind now l
unfolding reap
reap-amount RequestKind.historical now l =
    omega (arith, held-expire RequestKind.historical now l.reservations)
reap-amount RequestKind.general now l =
    omega (arith, held-expire RequestKind.general now l.reservations)

pub reap-cap : (kind : RequestKind) (now : ℕ) (l : Ledger) → cap (reap now l) kind ≡ cap l kind
unfolding reap
reap-cap RequestKind.historical now l = refl
reap-cap RequestKind.general now l = refl

pub reap-IsPaced :
    (base : Ledger) (now : ℕ) (l : Ledger) → IsPaced base now l → IsPaced base now (reap now l)
reap-IsPaced base now l =
    lighter base now l (reap now l) (λ kind. reap-cap kind now l)
      (λ kind. omega (arith, reap-amount kind now l))

-- A row that ends, its cost or a part of it used now.
module _ (now : ℕ) (l : Ledger) (r : PacingReservation) (id : String)
    (found : find id l.reservations ≡ some r) where
  freed :
      (kind : RequestKind) (set : PacingReservation → PacingReservation)
      → IsEnding set
      → held kind now (update_row id set l.reservations) + weight (is_held kind now r) r.cost
        ≤ held kind now l.reservations
  freed kind set ends = held-update kind now id set l.reservations r ends found

  pub spent :
      (kind : RequestKind) (set : PacingReservation → PacingReservation) (cost : ℕ)
      → IsEnding set
      → cost ≤ r.cost
      → is_active r.state ≡ true
      → ltb now r.expires_at ≡ true
      → used kind (limit_of l kind).window now (l.usage ++ usage_of r cost now ∷ [])
          + held kind now (update_row id set l.reservations)
        ≤ used kind (limit_of l kind).window now l.usage + held kind now l.reservations
  spent kind set cost ends le alive unexpired = ground (
    arith,
    used-append kind (limit_of l kind).window now l.usage (usage_of r cost now),
    freed kind set ends,
  )
