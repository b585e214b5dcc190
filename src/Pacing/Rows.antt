-- ===== src/Pacing/Rows.antt =====
-- engine/src/engine/options/pacing_ledger.py: the calls on one reservation, and a penalty, keep every kind of
-- request within its limit.
use ibkr_strategy_engine.Prelude.{
  ℕ, ◌+◌, ◌≤◌, ◌≡◌, refl, ℤ, pos, pos_part, ltb_ℤ, leb_ℤ, String, true, false, ◌||◌, Option, none,
  some, [], ◌∷◌, ◌++◌, arith, inl, inr, Bool-cases,
}
use ibkr_strategy_engine.Pacing.Tables.{
  RequestKind, ReservationState, PacingReservation, Ledger, limit_of, is_active, find, update_row,
  reap,
}
use ibkr_strategy_engine.Pacing.{
  Call, on_row, usage_of, spend, actual, commit_row, commit, unknown_row, mark_unknown, release_row,
  release, penalize,
}
use ibkr_strategy_engine.Pacing.Counting.{used, held, IsEnding, held-update_le, find-expire}
use ibkr_strategy_engine.Pacing.Paced.{amount, cap, IsPaced, lighter, reap-IsPaced, spent}

IsEnding-spend :
    (to : ReservationState) (cost : ℕ)
    → is_active to ≡ false
    → IsEnding (λ x. record x { state = to; cost = cost })
IsEnding-spend to cost h x = h

module _ (base : Ledger) (now : ℕ) (l : Ledger) (v : IsPaced base now l) (id : String)
    (r : PacingReservation) (found : find id (reap now l).reservations ≡ some r) where
  spend-IsPaced :
      (to : ReservationState) (cost : ℕ)
      → is_active to ≡ false
      → cost ≤ r.cost
      → is_active r.state ≡ true
      → IsPaced base now (spend id to cost now (reap now l) r).1
  unfolding reap
  spend-IsPaced to cost ends le alive =
      let u = reap-IsPaced base now l v in
      let m = reap now l in
      let fresh = find-expire now id l.reservations r found alive in
      let e = spent now m r id found in
      let set = IsEnding-spend to cost ends in
      lighter base now m (spend id to cost now m r).1 (λ kind. cap_of kind)
        (λ kind. weigh kind cost (λ k. e k _ cost set le alive fresh)) u
    where
      cap_of :
          (kind : RequestKind)
          → cap (spend id to cost now (reap now l) r).1 kind ≡ cap (reap now l) kind
      cap_of RequestKind.historical = refl
      cap_of RequestKind.general = refl

      weigh :
          (kind : RequestKind) (cost : ℕ)
          → ((k : RequestKind)
              → used k
                    (limit_of (reap now l) k).window
                    now
                    ((reap now l).usage ++ usage_of r cost now ∷ [])
                  + held k now (
                      update_row id
                        (λ x. record x { state = to; cost = cost })
                        (reap now l).reservations)
                ≤ used k (limit_of (reap now l) k).window now (reap now l).usage
                  + held k now (reap now l).reservations)
          → amount kind now (spend id to cost now (reap now l) r).1 ≤ amount kind now (reap now l)
      weigh RequestKind.historical cost h = h RequestKind.historical
      weigh RequestKind.general cost h = h RequestKind.general

  ended-IsPaced : IsPaced base now (release_row id l (reap now l) r ReservationState.active).1
  unfolding reap
  ended-IsPaced =
      lighter base now (reap now l) (release_row id l (reap now l) r ReservationState.active).1
        (λ kind. cap_of kind) (λ kind. weigh kind) (reap-IsPaced base now l v)
    where
      cap_of :
          (kind : RequestKind)
          → cap (release_row id l (reap now l) r ReservationState.active).1 kind
            ≡ cap (reap now l) kind
      cap_of RequestKind.historical = refl
      cap_of RequestKind.general = refl

      less :
          (kind : RequestKind)
          → held kind now (
              update_row id
                (λ x. record x { state = ReservationState.released })
                (reap now l).reservations)
            ≤ held kind now (reap now l).reservations
      less kind = held-update_le kind now id _ (reap now l).reservations (λ x. refl)

      weigh :
          (kind : RequestKind)
          → amount kind now (release_row id l (reap now l) r ReservationState.active).1
            ≤ amount kind now (reap now l)
      weigh RequestKind.historical = omega (arith, less RequestKind.historical)
      weigh RequestKind.general = omega (arith, less RequestKind.general)

  -- The rows by their state, the one found being `r`.
  commit_row-IsPaced :
      (a : Option ℤ) (st : ReservationState)
      → r.state ≡ st
      → IsPaced base now (commit_row id a now l (reap now l) r st).1
  commit_row-IsPaced a ReservationState.active e =
      elim (Bool-cases (leb_ℤ (actual a r.cost) (pos 0) || ltb_ℤ (pos r.cost) (actual a r.cost))) [
        | inl bad ↦ rw bad v
        | inr good ↦ rw good (
            spend-IsPaced ReservationState.committed (pos_part (actual a r.cost)) refl
              (ground arith) (rw e))
      ]
  commit_row-IsPaced a ReservationState.committed e = reap-IsPaced base now l v
  commit_row-IsPaced a ReservationState.released e = v
  commit_row-IsPaced a ReservationState.expired e = v
  commit_row-IsPaced a ReservationState.unknown e = v

  unknown_row-IsPaced :
      (st : ReservationState)
      → r.state ≡ st
      → IsPaced base now (unknown_row id now l (reap now l) r st).1
  unknown_row-IsPaced ReservationState.active e =
      spend-IsPaced ReservationState.unknown r.cost refl (omega arith) (rw e)
  unknown_row-IsPaced ReservationState.unknown e = reap-IsPaced base now l v
  unknown_row-IsPaced ReservationState.released e = v
  unknown_row-IsPaced ReservationState.expired e = v
  unknown_row-IsPaced ReservationState.committed e = v

  release_row-IsPaced :
      (st : ReservationState) → IsPaced base now (release_row id l (reap now l) r st).1
  release_row-IsPaced ReservationState.active = ended-IsPaced
  release_row-IsPaced ReservationState.released = reap-IsPaced base now l v
  release_row-IsPaced ReservationState.unknown = v
  release_row-IsPaced ReservationState.expired = v
  release_row-IsPaced ReservationState.committed = v

module _ (base : Ledger) (now : ℕ) (l : Ledger) (v : IsPaced base now l) where
  row-IsPaced :
      (id : String) (f : PacingReservation → Call)
      → ((r : PacingReservation)
          → find id (reap now l).reservations ≡ some r
          → IsPaced base now (f r).1)
      → IsPaced base now (on_row l (find id (reap now l).reservations) f).1
  row-IsPaced id f each = by_row (find id (reap now l).reservations) refl
    where
      by_row :
          (o : Option PacingReservation)
          → find id (reap now l).reservations ≡ o
          → IsPaced base now (on_row l o f).1
      by_row none e = v
      by_row (some r) e = each r e

  pub commit-IsPaced : (id : String) (a : Option ℤ) → IsPaced base now (commit id a now l).1
  unfolding commit
  commit-IsPaced id a =
      row-IsPaced id _ (λ r found. commit_row-IsPaced base now l v id r found a r.state refl)

  pub mark_unknown-IsPaced : (id : String) → IsPaced base now (mark_unknown id now l).1
  unfolding mark_unknown
  mark_unknown-IsPaced id =
      row-IsPaced id _ (λ r found. unknown_row-IsPaced base now l v id r found r.state refl)

  pub release-IsPaced : (id : String) → IsPaced base now (release id now l).1
  unfolding release
  release-IsPaced id =
      row-IsPaced id _ (λ r found. release_row-IsPaced base now l v id r found r.state)

  pub penalize-IsPaced :
      (kind : RequestKind) (pause_for : Option ℕ) → IsPaced base now (penalize kind pause_for now l)
  unfolding penalize
  penalize-IsPaced RequestKind.historical pause_for = record { fixed = same; within = le }
    where
      same :
          (k : RequestKind) → cap (penalize RequestKind.historical pause_for now l) k ≡ cap base k
      same RequestKind.historical = v.fixed RequestKind.historical
      same RequestKind.general = v.fixed RequestKind.general

      le :
          (k : RequestKind)
          → amount k now (penalize RequestKind.historical pause_for now l)
            ≤ cap (penalize RequestKind.historical pause_for now l) k
      le RequestKind.historical = v.within RequestKind.historical
      le RequestKind.general = v.within RequestKind.general
  penalize-IsPaced RequestKind.general pause_for = record { fixed = same; within = le }
    where
      same : (k : RequestKind) → cap (penalize RequestKind.general pause_for now l) k ≡ cap base k
      same RequestKind.historical = v.fixed RequestKind.historical
      same RequestKind.general = v.fixed RequestKind.general

      le :
          (k : RequestKind)
          → amount k now (penalize RequestKind.general pause_for now l)
            ≤ cap (penalize RequestKind.general pause_for now l) k
      le RequestKind.historical = v.within RequestKind.historical
      le RequestKind.general = v.within RequestKind.general
