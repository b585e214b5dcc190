-- ===== src/Receipts/Pending.antt =====
-- engine/src/engine/options/execution_outbox.py: what `unresolved` finds after a crash.
use ibkr_strategy_engine.Prelude.{
  ◌≡◌, refl, sym, ap, ◌∙◌, subst, ◌||◌, String, Bool, true, false, str_eq, eq_iff, Option, none,
  some, List, [], ◌∷◌, any, arith, ◌⊎◌, ◌≢◌, inl, inr, Bool-cases,
}
use ibkr_strategy_engine.Prelude.Result.{Result, ok, err, ◌>>=◌, ok-injective, >>=-eq-ok}
use ibkr_strategy_engine.Receipts.{Receipt, ReceiptError, Journal, read, for_saga}
use ibkr_strategy_engine.Receipts.Intents.{
  OutboxState, ExecutionIntent, raised, intent_from_records, load,
}
use ibkr_strategy_engine.Receipts.Recovery.{
  sagas, is_over, add_unresolved, unresolved_of, unresolved,
}

-- Whether a saga is named.
abbrev is_named : String → List String → Bool
is_named saga names = any (str_eq saga) names

-- Some place of a list holds an intent.
abbrev pub IsAmong : ExecutionIntent → List ExecutionIntent → Type 0
IsAmong i [] = ⊥
IsAmong i (x ∷ xs) = (x ≡ i) ⊎ IsAmong i xs

-- Every saga with a receipt is named, but for those that were seen before.
sagas_complete :
    (seen : List String) (rs : List Receipt) (saga : String)
    → any (λ (r : Receipt). str_eq r.saga_id saga) rs ≡ true
    → (is_named saga seen || is_named saga (sagas seen rs)) ≡ true
unfolding sagas
sagas_complete seen [] saga h = absurd (ground arith)
sagas_complete seen (r ∷ rs) saga h = elim (Bool-cases (str_eq r.saga_id saga)) [
  | inl mine ↦
      let e : r.saga_id ≡ saga = (eq_iff r.saga_id saga).0 mine in
      let first = (eq_iff saga r.saga_id).1 (sym e) in
      let place = ap (λ (s : String). is_named s seen) e in ground arith
  | inr other ↦ ground (
    arith,
    sagas_complete seen rs saga,
    sagas_complete (r.saga_id ∷ seen) rs saga,
    eq_iff saga r.saga_id,
    eq_iff r.saga_id saga,
  )
]

-- Whatever is named, and has an intent that is not over, is found.
unresolved_of_complete :
    (names : List String) (rs : List Receipt) (found : List ExecutionIntent) (saga : String)
    (i : ExecutionIntent)
    → unresolved_of names rs ≡ ok found
    → is_named saga names ≡ true
    → intent_from_records (for_saga saga rs) ≡ ok (some i)
    → is_over i.state ≡ false
    → IsAmong i found
unfolding unresolved_of
unresolved_of_complete [] rs found saga i h named loaded pending = absurd (ground arith)
unresolved_of_complete (name ∷ names) rs found saga i h named loaded pending =
    let (first, loaded', h') = >>=-eq-ok (intent_from_records (for_saga name rs)) _ h in
    let (rest, resolved, h'') = >>=-eq-ok (unresolved_of names rs) _ h' in
    let further : is_named saga names ≡ true → IsAmong i rest =
      λ n. unresolved_of_complete names rs rest saga i resolved n loaded pending in
    subst (IsAmong i) (ok-injective h'') (elim (Bool-cases (str_eq saga name)) [
      | inl here ↦
          let e = (eq_iff saga name).0 here in
          let own : first ≡ some i = ok-injective (
            sym loaded'
            ∙ subst (λ (s : String). intent_from_records (for_saga s rs) ≡ ok (some i)) e loaded) in
          rw own (rw pending (inl refl))
      | inr there ↦ added first rest (further (rw there at named))
    ])
  where
    added :
        (o : Option ExecutionIntent) (rest : List ExecutionIntent)
        → IsAmong i rest
        → IsAmong i (add_unresolved o rest)
    added none rest among = among
    added (some x) rest among = elim (Bool-cases (is_over x.state)) [
      | inl over ↦ rw over among
      | inr open_yet ↦ rw open_yet (inr among)
    ]

loaded-any :
    (saga : String) (rs : List Receipt) (i : ExecutionIntent)
    → intent_from_records (for_saga saga rs) ≡ ok (some i)
    → any (λ (r : Receipt). str_eq r.saga_id saga) rs ≡ true
unfolding intent_from_records
loaded-any saga [] i h = absurd (ground arith)
loaded-any saga (r ∷ rs) i h = elim (Bool-cases (str_eq r.saga_id saga)) [
  | inl mine ↦ rw mine refl
  | inr other ↦ rw other (loaded-any saga rs i (rw other at h))
]

-- A saga that is at neither of the two states with which it ends is not over.
pending_states :
    (s : OutboxState)
    → s ≢ OutboxState.order_outcome
    → s ≢ OutboxState.recovery_cleared
    → is_over s ≡ false
pending_states OutboxState.order_outcome h k = absurd (h refl)
pending_states OutboxState.recovery_cleared h k = absurd (k refl)
pending_states _ h k = refl

-- After a crash, every saga whose intent is at neither ORDER_OUTCOME nor RECOVERY_CLEARED, quarantined ones
-- included, is among the unresolved ones, where `unresolved` returns; it raises where the file cannot be
-- read, or the first receipt of some saga has not the keys of a send intent.
pub unresolved_complete :
    (j : Journal) (found : List ExecutionIntent) (saga : String) (i : ExecutionIntent)
    → unresolved j ≡ ok found
    → load saga j ≡ ok (some i)
    → i.state ≢ OutboxState.order_outcome
    → i.state ≢ OutboxState.recovery_cleared
    → IsAmong i found
unfolding unresolved load
unresolved_complete j found saga i h loaded unfinished uncleared = by_read (read j.file) h loaded
  where
    by_read :
        (o : Result ReceiptError (List Receipt))
        → (do rs ← raised o; unresolved_of (sagas [] rs) rs) ≡ ok found
        → (do rs ← raised o; intent_from_records (for_saga saga rs)) ≡ ok (some i)
        → IsAmong i found
    by_read (err e) h loaded = absurd (ground arith)
    by_read (ok rs) h loaded =
        unresolved_of_complete (sagas [] rs) rs found saga i h
          (sagas_complete [] rs saga (loaded-any saga rs i loaded)) loaded
          (pending_states i.state unfinished uncleared)
