-- ===== src/Receipts/Prepared.antt =====
-- engine/src/engine/options/execution_outbox.py: the intent that `prepare` returns.
use ibkr_strategy_engine.Prelude.{
  ◌≡◌, refl, sym, ap, ◌∙◌, subst, ℕ, String, true, false, str_eq, eq_iff, Option, none, some, List,
  [], ◌∷◌, is_empty, strip, arith, inl, inr, Bool-cases, Option-cases,
}
use ibkr_strategy_engine.Prelude.Result.{Result, ok, err}
use ibkr_strategy_engine.Receipts.{
  SendFacts, Payload, Receipt, JournalFile, Disk, Journal, current_version, find_key, by_key,
  for_saga, new_receipt, write_line, append,
}
use ibkr_strategy_engine.Receipts.Intents.{
  ExecutionIntent, IntentError, intent_of, intent_from_records, load, saga_of, same_facts,
  intent_key, publish_call, published, prepare_from, prepare,
}

same_facts-eq : (a b : SendFacts) → same_facts a b ≡ true → a ≡ b
same_facts-eq a b h = ground (
  arith,
  eq_iff a.logical_entry_id b.logical_entry_id,
  eq_iff a.approval_id b.approval_id,
  eq_iff a.request_id b.request_id,
  eq_iff a.spec_digest b.spec_digest,
  eq_iff a.packet_digest b.packet_digest,
)

-- A receipt of the saga under a key is among the receipts of the saga.
for_saga-find_key :
    (saga key : String) (rs : List Receipt) (r : Receipt)
    → find_key key rs ≡ some r
    → str_eq r.saga_id saga ≡ true
    → (x : Receipt) × (xs : List Receipt) × (for_saga saga rs ≡ x ∷ xs)
unfolding find_key
for_saga-find_key saga key [] r found own = absurd (ground arith)
for_saga-find_key saga key (x ∷ rs) r found own = elim (Bool-cases (str_eq x.saga_id saga)) [
  | inl mine ↦ (x, for_saga saga rs, rw mine refl)
  | inr other ↦ elim (Bool-cases (str_eq x.idempotency_key key)) [
    | inl here ↦
        let same : x ≡ r = cc (rw here at found) in
        let clash : str_eq r.saga_id saga ≡ false =
          subst (λ (y : Receipt). str_eq y.saga_id saga ≡ false) same other in
        absurd (ground arith)
    | inr there ↦
        let (y, ys, e) = for_saga-find_key saga key rs r (rw there at found) own in
        (y, ys, rw other e)
  ]
]

intent_from-empty : (rs : List Receipt) → intent_from_records rs ≡ ok none → rs ≡ []
unfolding intent_from_records
intent_from-empty [] h = refl
intent_from-empty (r ∷ rs) h = by_payload r.payload h
  where
    by_payload : (p : Payload) → intent_of r rs p ≡ ok none → r ∷ rs ≡ []
    by_payload (Payload.send_facts f) h = absurd (ground arith)
    by_payload (Payload.details d) h = absurd (ground arith)

refused :
    {cause : IntentError} {i : ExecutionIntent}
    → ◌≡◌ {A = Result IntentError (Option ExecutionIntent)} (err cause) (ok (some i))
    → ⊥
refused h = ground arith

returned :
    {x i : ExecutionIntent}
    → ◌≡◌ {A = Result IntentError (Option ExecutionIntent)} (ok (some x)) (ok (some i))
    → i ≡ x
returned h = cc

no_row : {r : Receipt} → ◌≡◌ {A = Option Receipt} none (some r) → ⊥
no_row h = ground arith

no_line : {r : Receipt} {rs : List Receipt} → ◌≡◌ {A = List Receipt} [] (r ∷ rs) → ⊥
no_line h = ground arith

-- What is appended and returned, where the saga has no receipt.
published-IsOwn :
    (facts : SendFacts) (at : ℕ) (fresh : String) (rs : List Receipt) (d : Disk)
    (i : ExecutionIntent)
    → by_key (intent_key (saga_of facts)) rs ≡ none
    → (published (
        append
          (publish_call facts at fresh)
          (record { file = JournalFile.readable rs; disk = d }))).0
      ≡ ok (some i)
    → i.facts ≡ facts
unfolding append intent_from_records
published-IsOwn facts at fresh rs d i unused h =
    elim (Bool-cases (is_empty (strip (saga_of facts)))) [
      | inl unnamed ↦ absurd (refused (rw unnamed at h))
      | inr named ↦ written d (rw (named, unused) at h)
    ]
  where
    r : Receipt
    r = new_receipt (publish_call facts at fresh) (current_version (saga_of facts) rs)

    written : (d : Disk) → (published (write_line r rs true d)).0 ≡ ok (some i) → i.facts ≡ facts
    written Disk.works h = ap (λ (x : ExecutionIntent). x.facts) (returned h)
    written Disk.refuses h = absurd (refused h)
    written Disk.cuts h = absurd (refused h)
    written Disk.cuts_newline h = absurd (refused h)
    written Disk.unsynced h = absurd (refused h)

-- On a journal that can be read and ends with a newline, where no other process acts between its read and its
-- append, and the key of the saga's intent names no
-- receipt of another saga, the intent that `prepare` returns has the facts that it was asked for, also when
-- the saga, or another whose name is spelled the same, was prepared before.
pub prepare_names_facts :
    (facts : SendFacts) (at : ℕ) (fresh : String) (rs : List Receipt) (d : Disk)
    (i : ExecutionIntent)
    → ((r : Receipt)
        → find_key (intent_key (saga_of facts)) rs ≡ some r
        → str_eq r.saga_id (saga_of facts) ≡ true)
    → (prepare facts at fresh [] (record { file = JournalFile.readable rs; disk = d })).0
      ≡ ok (some i)
    → i.facts ≡ facts
unfolding prepare load
prepare_names_facts facts at fresh rs d i own =
    by_load (intent_from_records (for_saga saga rs)) refl
  where
    saga : String
    saga = saga_of facts

    j : Journal
    j = record { file = JournalFile.readable rs; disk = d }

    by_load :
        (o : Result IntentError (Option ExecutionIntent))
        → intent_from_records (for_saga saga rs) ≡ o
        → (prepare_from facts at fresh [] j o).0 ≡ ok (some i)
        → i.facts ≡ facts
    by_load (err e) loaded h = absurd (ground arith)
    by_load (ok (some x)) loaded h = elim (Bool-cases (same_facts x.facts facts)) [
      | inl same ↦
          ap (λ (y : ExecutionIntent). y.facts) (returned (rw same at h))
          ∙ same_facts-eq x.facts facts same
      | inr other ↦ absurd (refused (rw other at h))
    ]
    by_load (ok none) loaded h = elim (Option-cases (by_key (intent_key saga) rs)) [
      | inl unused ↦ published-IsOwn facts at fresh rs d i unused h
      | inr (r, known) ↦ elim (Bool-cases (is_empty (intent_key saga))) [
        | inl unnamed ↦ absurd (no_row (rw unnamed at known))
        | inr named ↦
            let found = rw named at known in
            let (x, xs, e) = for_saga-find_key saga (intent_key saga) rs r found (own r found) in
            absurd (no_line (sym (intent_from-empty (for_saga saga rs) loaded) ∙ e))
      ]
    ]
