-- ===== src/Pacing/Shared.antt =====
-- engine/src/engine/options/pacing.py: `SharedPacingBudget.acquire`, which draws on the ledger and on the
-- bucket of its process. What the bucket does is an argument, with the instant at which it is done.
use ibkr_strategy_engine.Prelude.{
  ◌≡◌, refl, sym, ap, ◌∙◌, ℕ, pos, String, Bool, true, false, ◌&&◌, str_eq, eq_iff, Option, none,
  some, arith, List, [], ◌∷◌, ◌++◌, inl, inr, Bool-cases, if◌then◌else◌,
}
use ibkr_strategy_engine.Prelude.Result.{Result, ok, err}
use ibkr_strategy_engine.Pacing.Tables.{
  RequestKind, Priority, ReservationState, PacingReservation, Usage, Ledger, find, is_due, expire,
  reap, limit_of, is_discovery,
}
use ibkr_strategy_engine.Pacing.{
  PacingError, Config, ReserveCall, Granted, Call, existing, before, exceeds, conflicts, grant,
  new_reservation, check_call, after_check, reserve, usage_of, on_row, commit_row, commit,
  release_row, release,
}
use ibkr_strategy_engine.Pacing.Grants.{next_tables, chosen, granted_new}

pub data SharedError : Type 0 where
  paced local_failed : SharedError
  ledger : PacingError → SharedError

-- `self.local.acquire`: it raises, or it has waited for its token.
pub data LocalAnswer : Type 0 where
  failed waited : ℕ → LocalAnswer

abbrev pub Acquired : Type 0
Acquired = Result SharedError Unit × Ledger

-- The exception of the bucket is raised again, unless the release raises its own.
abbrev pub after_release : Call → Acquired
after_release (ok _, l) = (err SharedError.local_failed, l)
after_release (err e, l) = (err (SharedError.ledger e), l)

abbrev pub after_commit : Call → Acquired
after_commit (ok _, l) = (ok tt, l)
after_commit (err e, l) = (err (SharedError.ledger e), l)

abbrev pub on_reservation : LocalAnswer → PacingReservation → Ledger → Acquired
on_reservation (LocalAnswer.failed at) r l = after_release (release r.reservation_id at l)
on_reservation (LocalAnswer.waited at) r l =
    after_commit (commit r.reservation_id (some (pos 1)) at l)

abbrev pub after_reserve : LocalAnswer → Granted → Acquired
after_reserve answer (err e, l) = (err (SharedError.ledger e), l)
after_reserve answer (ok none, l) = (err SharedError.paced, l)
after_reserve answer (ok (some r), l) = on_reservation answer r l

-- The call of the ledger: `cost=1`, under a request key of its own.
abbrev pub shared_call : RequestKind → Priority → String → String → ℕ → String → ReserveCall
shared_call kind priority owner_id request_key now fresh = record {
  kind = kind;
  cost = pos 1;
  priority = priority;
  owner_id = owner_id;
  request_key = some request_key;
  ttl = none;
  now = now;
  fresh = fresh;
}

-- With the request key that `_request_key` draws, the instants of the clock and the id that the ledger draws.
unfoldable pub acquire :
    Config → RequestKind → Priority → String → String → ℕ → String → LocalAnswer → Ledger → Acquired
acquire c kind priority owner_id request_key now fresh answer l =
    after_reserve answer (reserve c (shared_call kind priority owner_id request_key now fresh) l)

-- One more row of usage where the call returned, and none where it raised.
abbrev pub Spends : Ledger → Usage → Acquired → Type 0
Spends before row (ok _, l) = l.usage ≡ before.usage ++ row ∷ []
Spends before row (err _, l) = l.usage ≡ before.usage

reserve-usage : (c : Config) (q : ReserveCall) (l : Ledger) → (reserve c q l).1.usage ≡ l.usage
unfolding reserve reap
reserve-usage c q l = checked (check_call c q) (existing q.request_key (reap q.now l).reservations)
  where
    m : Ledger
    m = reap q.now l

    tested : (paused full taken : Bool) → (chosen c q l paused full taken).1.usage ≡ l.usage
    tested true full taken = refl
    tested false true taken = refl
    tested false false true = refl
    tested false false false = refl

    checked :
        (v : Result PacingError Unit) (o : Option PacingReservation)
        → (after_check v l (grant c q l m o)).1.usage ≡ l.usage
    checked (err e) o = refl
    checked (ok _) (some r) = refl
    checked (ok _) none =
        tested (is_discovery q.priority && before q.now (limit_of m q.kind).paused_until)
          (exceeds c q m) (conflicts q m.reservations)

release-usage : (id : String) (now : ℕ) (l : Ledger) → (release id now l).1.usage ≡ l.usage
unfolding release reap
release-usage id now l = by_row (find id (reap now l).reservations)
  where
    by_state :
        (r : PacingReservation) (s : ReservationState)
        → (release_row id l (reap now l) r s).1.usage ≡ l.usage
    by_state r ReservationState.active = refl
    by_state r ReservationState.committed = refl
    by_state r ReservationState.released = refl
    by_state r ReservationState.expired = refl
    by_state r ReservationState.unknown = refl

    by_row :
        (o : Option PacingReservation)
        → (on_row l o (λ r. release_row id l (reap now l) r r.state)).1.usage ≡ l.usage
    by_row none = refl
    by_row (some r) = by_state r r.state

-- The row that was added last, when the rows that are due expire.
abbrev aged : ℕ → PacingReservation → PacingReservation
aged now r = if is_due now r then record r { state = ReservationState.expired } else r

find_added :
    (id : String) (now : ℕ) (rs : List PacingReservation) (r : PacingReservation)
    → find id rs ≡ none
    → str_eq r.reservation_id id ≡ true
    → find id (expire now (rs ++ r ∷ [])) ≡ some (aged now r)
unfolding find expire
find_added id now [] r h own = elim (Bool-cases (is_due now r)) [
  | inl due ↦ rw (due, own) refl
  | inr early ↦ rw (early, own) refl
]
find_added id now (x ∷ rs) r h own = elim (Bool-cases (str_eq x.reservation_id id)) [
  | inl here ↦ absurd (ground arith)
  | inr there ↦ elim (Bool-cases (is_due now x)) [
    | inl due ↦ rw (due, there) (find_added id now rs r (rw there at h) own)
    | inr early ↦ rw (early, there) (find_added id now rs r (rw there at h) own)
  ]
]

abbrev ended : LocalAnswer → ℕ
ended (LocalAnswer.failed at) = at
ended (LocalAnswer.waited at) = at

aged-Spends :
    (c : Config) (q : ReserveCall) (at : ℕ) (l : Ledger)
    → q.cost ≡ pos 1
    → let r = new_reservation c q in
      let m = next_tables c q l in
      Spends l (usage_of r 1 at) (
        after_commit (
          on_row m
            (some (aged at r))
            (λ x. commit_row q.fresh (some (pos 1)) at m (reap at m) x x.state)))
unfolding reap
aged-Spends c q at l one = elim (Bool-cases (is_due at (new_reservation c q))) [
  | inl due ↦ rw due refl
  | inr early ↦ rw (early, one) refl
]

reserved-Spends :
    (c : Config) (q : ReserveCall) (answer : LocalAnswer) (l : Ledger)
    → q.cost ≡ pos 1
    → find q.fresh (reap q.now l).reservations ≡ none
    → Spends l
        (usage_of (new_reservation c q) 1 (ended answer))
        (on_reservation answer (new_reservation c q) (next_tables c q l))
unfolding commit reap
reserved-Spends c q (LocalAnswer.failed at) l one unused =
    released (release q.fresh at m) (release-usage q.fresh at m)
  where
    m : Ledger
    m = next_tables c q l

    released :
        (k : Call)
        → k.1.usage ≡ m.usage
        → Spends l (usage_of (new_reservation c q) 1 at) (after_release k)
    released (ok _, _) h = h
    released (err _, _) h = h
reserved-Spends c q (LocalAnswer.waited at) l one unused =
    rw
      (find_added q.fresh at (reap q.now l).reservations (new_reservation c q) unused
        ((eq_iff q.fresh q.fresh).1 refl))
      (aged-Spends c q at l one)

-- Under a new id and a request key that no reservation holds, an `acquire` that returns has recorded
-- exactly one request against the session, of its kind and priority and at the instant at which it was let
-- through; where it raises, whether the ledger refused, the bucket failed, or the reservation had expired by
-- the time the bucket let it through, it has recorded none.
pub acquire-Spends :
    (c : Config) (kind : RequestKind) (priority : Priority) (owner_id request_key : String)
    (now : ℕ) (fresh : String) (answer : LocalAnswer) (l : Ledger)
    → existing (some request_key) (reap now l).reservations ≡ none
    → find fresh (reap now l).reservations ≡ none
    → let q = shared_call kind priority owner_id request_key now fresh in
      Spends l
        (usage_of (new_reservation c q) 1 (ended answer))
        (acquire c kind priority owner_id request_key now fresh answer l)
unfolding acquire
acquire-Spends c kind priority owner_id request_key now fresh answer l unheld unused =
    reserved (reserve c q l) refl
  where
    q : ReserveCall
    q = shared_call kind priority owner_id request_key now fresh

    reserved :
        (g : Granted)
        → reserve c q l ≡ g
        → Spends l (usage_of (new_reservation c q) 1 (ended answer)) (after_reserve answer g)
    reserved (err e, k) h = ap (λ (g : Granted). g.1.usage) (sym h) ∙ reserve-usage c q l
    reserved (ok none, k) h = ap (λ (g : Granted). g.1.usage) (sym h) ∙ reserve-usage c q l
    reserved (ok (some r), k) h =
        let (tables, new, _) = granted_new c q l r unheld (ap (λ (g : Granted). g.0) h) in
        let same : k ≡ next_tables c q l = sym (ap (λ (g : Granted). g.1) h) ∙ tables in
        rw (same, new) (reserved-Spends c q answer l refl unused)
