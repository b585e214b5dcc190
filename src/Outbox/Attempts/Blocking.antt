-- ===== src/Outbox/Attempts/Blocking.antt =====
-- engine/src/engine/options/order_outbox.py: what no sequence of calls can undo, and which attempts keep
-- a new entry from being sent. With the classification of engine/src/engine/options/transmit.py.
use ibkr_strategy_engine.Prelude.{
  String, Bool, true, false, ◌≡◌, ◌≢◌, ◌↔◌, refl, ap, ◌∙◌, subst, inl, inr, str_eq, Option, eq_iff,
  ℕ, some, List, [], ◌∷◌, arith, if◌then◌else◌, Bool-cases, select, length, ◌==◌, All, ◌&&◌,
}
use ibkr_strategy_engine.Prelude.Result.{ok, refuse_if, >>=-eq-ok, ok-injective}
use ibkr_strategy_engine.Prelude.Dict.{Dict, lookup}
use ibkr_strategy_engine.Outbox.Attempts.{
  OutboxState, OutboxError, Attempt, AttemptFile, corrupt, kept, Disk, Outbox, Operation, run,
  is_reconciled,
}
use ibkr_strategy_engine.Outbox.Attempts.Clear.{
  is_blocking, records, blocking_records, assert_clear,
}
use ibkr_strategy_engine.Outbox.Attempts.Lifecycle.{
  ◌⟶◌, IsOpen, prepared_open, target, is_reconciling,
}
use ibkr_strategy_engine.Outbox.Attempts.Quarantine.{IsFiled, Fate, run-Fate, run-IsFiled}

-- Calls in turn, on a disk that may fail or recover before each.
pub run_all : List (Disk × Operation) → Outbox → Outbox
run_all [] s = s
run_all ((disk, op) ∷ calls) s = run_all calls (run op (record s { disk = disk })).1

abbrev is_closed : OutboxState → Bool
is_closed OutboxState.outcome = true
is_closed OutboxState.reconciled = true
is_closed OutboxState.aborted = true
is_closed _ = false

open_not_closed : {a : OutboxState} → IsOpen a → is_closed a ≡ true → ⊥
open_not_closed prepared_open h = cc
open_not_closed _ h = cc

no_edge_of_closed : {a b : OutboxState} → a ⟶ b → is_closed a ≡ true → ⊥
no_edge_of_closed (◌⟶◌.consume o) h = open_not_closed o h
no_edge_of_closed (◌⟶◌.send o) h = open_not_closed o h
no_edge_of_closed (◌⟶◌.observe o) h = open_not_closed o h
no_edge_of_closed (◌⟶◌.conclude o) h = open_not_closed o h
no_edge_of_closed (◌⟶◌.quarantine o) h = open_not_closed o h
no_edge_of_closed ◌⟶◌.abort_prepared h = cc
no_edge_of_closed ◌⟶◌.abort_consumed h = cc
no_edge_of_closed ◌⟶◌.reconcile_ambiguous h = cc
no_edge_of_closed ◌⟶◌.reconcile_observed h = cc

abbrev is_ambiguous : OutboxState → Bool
is_ambiguous OutboxState.ambiguous = true
is_ambiguous _ = false

open_not_ambiguous : {a : OutboxState} → IsOpen a → is_ambiguous a ≡ true → ⊥
open_not_ambiguous prepared_open h = cc
open_not_ambiguous _ h = cc

-- The one way out of quarantine.
edge_of_ambiguous : {a b : OutboxState} → a ⟶ b → is_ambiguous a ≡ true → is_reconciled b ≡ true
edge_of_ambiguous (◌⟶◌.consume o) h = absurd (open_not_ambiguous o h)
edge_of_ambiguous (◌⟶◌.send o) h = absurd (open_not_ambiguous o h)
edge_of_ambiguous (◌⟶◌.observe o) h = absurd (open_not_ambiguous o h)
edge_of_ambiguous (◌⟶◌.conclude o) h = absurd (open_not_ambiguous o h)
edge_of_ambiguous (◌⟶◌.quarantine o) h = absurd (open_not_ambiguous o h)
edge_of_ambiguous ◌⟶◌.abort_prepared h = cc
edge_of_ambiguous ◌⟶◌.abort_consumed h = cc
edge_of_ambiguous ◌⟶◌.reconcile_ambiguous h = refl
edge_of_ambiguous ◌⟶◌.reconcile_observed h = refl

on_disk : (s : Outbox) (disk : Disk) → IsFiled s → IsFiled (record s { disk = disk })
on_disk s disk filed = record { named = filed.named }

-- Where every record stands in the file of its own id, an attempt with an outcome, reconciled or aborted
-- is never changed again, whatever is called and however the disk fails.
pub run_all_closed :
    (calls : List (Disk × Operation)) (s : Outbox) (id : String) (a : Attempt)
    → IsFiled s
    → lookup id s.attempts ≡ some (kept a)
    → is_closed a.state ≡ true
    → lookup id (run_all calls s).attempts ≡ some (kept a)
unfolding run_all
run_all_closed [] s id a filed found closed = found
run_all_closed ((disk, op) ∷ calls) s id a filed found closed =
    let filed' = on_disk s disk filed in
    run_all_closed calls (run op (record s { disk = disk })).1 id a (run-IsFiled op _ filed')
      (stays (run-Fate op (record s { disk = disk }) id a filed' found)) closed
  where
    stays : {f : Option AttemptFile} → Fate op (record s { disk = disk }) id a f → f ≡ some (kept a)
    stays (Fate.unchanged same) = same
    stays (Fate.advanced c moved at edge only) = absurd (no_edge_of_closed edge closed)

-- No call of the sequence reconciles the attempt `id`.
abbrev NeverReconciles : String → List (Disk × Operation) → Type 0
NeverReconciles id =
    All (λ (call : Disk × Operation). (is_reconciling call.1 && str_eq (target call.1) id) ≡ false)

-- What `assert_clear` asks of one state file.
abbrev pub IsClear : String × AttemptFile → Type 0
IsClear (_, corrupt) = ⊥
IsClear (_, kept a) = is_blocking a ≡ false

records-IsClear :
    (files : Dict AttemptFile) (all : List Attempt)
    → records files ≡ ok all
    → length (select is_blocking all) ≡ 0
    → All IsClear files
unfolding records
records-IsClear [] all h none_blocks = tt
records-IsClear ((_, corrupt) ∷ files) all h none_blocks = ground arith
records-IsClear ((_, kept a) ∷ files) all h none_blocks =
    let (rest, e, r) = >>=-eq-ok (records files) _ h in
    let count : length (select is_blocking (a ∷ rest)) ≡ 0 =
      ap (λ (xs : List Attempt). length (select is_blocking xs)) (ok-injective r) ∙ none_blocks in
    (ground arith, records-IsClear files rest e (ground arith))

IsClear-records :
    (files : Dict AttemptFile)
    → All IsClear files
    → (all : List Attempt) × (records files ≡ ok all) × (length (select is_blocking all) ≡ 0)
unfolding records
IsClear-records [] clear = ([], refl, refl)
IsClear-records ((_, corrupt) ∷ files) clear = absurd clear.0
IsClear-records ((_, kept a) ∷ files) clear =
    let (rest, e, z) = IsClear-records files clear.1 in (a ∷ rest, rw e, rw clear.0 z)

zero_of_test :
    (n : ℕ)
    → refuse_if (if n == 0 then false else true) OutboxError.needs_reconciliation ≡ ok tt
    → n ≡ 0
zero_of_test n h = ground arith

-- `assert_clear` returns exactly when every state file can be read and none holds a blocking attempt.
pub assert_clear_iff : (s : Outbox) → (assert_clear s ≡ ok tt) ↔ All IsClear s.attempts
unfolding assert_clear
assert_clear_iff s = (
  λ h.
      let (blocking, e, r) = >>=-eq-ok (blocking_records s) _ h in
      let (all, e', r') = >>=-eq-ok (records s.attempts) _ e in
      records-IsClear s.attempts all e'
        (ap length (ok-injective r') ∙ zero_of_test (length blocking) r),
  λ clear. let (all, e, z) = IsClear-records s.attempts clear in rw e (rw z),
)

clear-lookup :
    (files : Dict AttemptFile) (id : String) (a : Attempt)
    → All IsClear files
    → lookup id files ≡ some (kept a)
    → is_blocking a ≡ false
unfolding lookup
clear-lookup [] id a clear found = cc
clear-lookup ((j, corrupt) ∷ files) id a clear found = absurd clear.0
clear-lookup ((j, kept b) ∷ files) id a clear found = elim (Bool-cases (str_eq j id)) [
  | inl same ↦
      let e : b ≡ a = kept_same (rw same at found) in
      subst (λ (x : Attempt). is_blocking x ≡ false) e clear.0
  | inr other ↦ clear-lookup files id a clear.1 (rw other at found)
]
  where
    kept_same : {x y : Attempt} → some (kept x) ≡ some (kept y) → x ≡ y
    kept_same h = cc

stays_quarantined :
    (calls : List (Disk × Operation)) (s : Outbox) (id : String) (a : Attempt)
    → IsFiled s
    → lookup id s.attempts ≡ some (kept a)
    → is_ambiguous a.state ≡ true
    → NeverReconciles id calls
    → lookup id (run_all calls s).attempts ≡ some (kept a)
unfolding run_all
stays_quarantined [] s id a filed found ambiguous never = found
stays_quarantined ((disk, op) ∷ calls) s id a filed found ambiguous never =
    let filed' = on_disk s disk filed in
    stays_quarantined calls (run op (record s { disk = disk })).1 id a (run-IsFiled op _ filed')
      (stays (run-Fate op (record s { disk = disk }) id a filed' found)) ambiguous never.1
  where
    stays : {f : Option AttemptFile} → Fate op (record s { disk = disk }) id a f → f ≡ some (kept a)
    stays (Fate.unchanged same) = same
    stays (Fate.advanced c moved at edge only) =
        let r = edge_of_ambiguous edge ambiguous in
        let named = (eq_iff (target op) id).1 at in absurd (ground arith)

-- Where every record stands in the file of its own id, calls that do not reconcile a quarantined attempt
-- leave its record as it is, and the check before a new entry then refuses.
pub run_all_quarantined :
    (calls : List (Disk × Operation)) (s : Outbox) (id : String) (a : Attempt)
    → IsFiled s
    → lookup id s.attempts ≡ some (kept a)
    → a.state ≡ OutboxState.ambiguous
    → NeverReconciles id calls
    → (lookup id (run_all calls s).attempts ≡ some (kept a))
      × (assert_clear (run_all calls s) ≢ ok tt)
unfolding is_blocking
run_all_quarantined calls s id a filed found ambiguous never =
    let still = stays_quarantined calls s id a filed found (rw ambiguous) never in
    (
      still,
      λ clear.
          let free =
            clear-lookup (run_all calls s).attempts id a ((assert_clear_iff _).0 clear) still in
          ground arith,
    )
