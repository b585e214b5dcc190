-- ===== src/Outbox/Attempts/Quarantine.antt =====
-- engine/src/engine/options/order_outbox.py: what no sequence of calls can undo, and what blocks a new
-- entry.
use ibkr_strategy_engine.Prelude.{
  String, true, false, ◌≡◌, sym, ap, ◌∙◌, subst, inl, inr, str_eq, eq_iff, Option, some,
  if◌then◌else◌, Bool-cases,
}
use ibkr_strategy_engine.Prelude.Dict.{lookup, insert, lookup-insert}
use ibkr_strategy_engine.Outbox.Attempts.{
  Attempt, AttemptFile, kept, Outbox, Call, Operation, run, is_reconciled,
}
use ibkr_strategy_engine.Outbox.Attempts.Lifecycle.{◌⟶◌, target, Effect, is_reconciling}
use ibkr_strategy_engine.Outbox.Attempts.Effects.{run-Effect}

-- Every record stands in the file of its own id.
pub record IsFiled (s : Outbox) : Type 0 where
  pub named : (id : String) (a : Attempt) → lookup id s.attempts ≡ some (kept a) → a.attempt_id ≡ id

-- What a lookup finds once `c` is saved.
lookup-saved :
    (s : Outbox) (r : Call) (c : Attempt) (id : String)
    → r.1.attempts ≡ insert c.attempt_id (kept c) s.attempts
    → lookup id r.1.attempts
      ≡ (if str_eq c.attempt_id id then some (kept c) else lookup id s.attempts)
lookup-saved s r c id written =
    ap (lookup id) written ∙ lookup-insert c.attempt_id id (kept c) s.attempts

-- The file of `id` is as it was, or was moved along an edge by an operation on `id`.
pub data Fate (op : Operation) (s : Outbox) (id : String) (a : Attempt) (f : Option AttemptFile)
    : Type 0 where
  unchanged : f ≡ some (kept a) → Fate op s id a f
  advanced :
      (c : Attempt)
      → f ≡ some (kept c)
      → target op ≡ id
      → a.state ⟶ c.state
      → is_reconciled c.state ≡ is_reconciling op
      → Fate op s id a f

same_attempt :
    (o : Option AttemptFile) (a b : Attempt) → o ≡ some (kept b) → o ≡ some (kept a) → b ≡ a
same_attempt o a b p q = cc

-- A saved record under another id leaves the file.
elsewhere :
    (s : Outbox) (r : Call) (c a : Attempt) (id : String)
    → r.1.attempts ≡ insert c.attempt_id (kept c) s.attempts
    → str_eq c.attempt_id id ≡ false
    → lookup id s.attempts ≡ some (kept a)
    → lookup id r.1.attempts ≡ some (kept a)
elsewhere s r c a id written other found = lookup-saved s r c id written ∙ rw other found

here :
    (s : Outbox) (r : Call) (c : Attempt) (id : String)
    → r.1.attempts ≡ insert c.attempt_id (kept c) s.attempts
    → str_eq c.attempt_id id ≡ true
    → lookup id r.1.attempts ≡ some (kept c)
here s r c id written same = lookup-saved s r c id written ∙ rw same

-- One call, seen from an attempt that exists, where every record stands in the file of its own id: its
-- file stays, or an operation on it moves it along an edge of the diagram, to the reconciled state
-- exactly when the operation reconciles.
pub run-Fate :
    (op : Operation) (s : Outbox) (id : String) (a : Attempt)
    → IsFiled s
    → lookup id s.attempts ≡ some (kept a)
    → Fate op s id a (lookup id (run op s).1.attempts)
run-Fate op s id a filed found = by_effect (run-Effect op s)
  where
    by_effect : Effect op s (run op s) → Fate op s id a (lookup id (run op s).1.attempts)
    by_effect (Effect.refused same e raised) = Fate.unchanged (ap (lookup id) same ∙ found)
    by_effect (Effect.created c absent named fresh written) =
        elim (Bool-cases (str_eq c.attempt_id id)) [
          | inl same ↦
              let at : target op ≡ id = sym named ∙ (eq_iff c.attempt_id id).0 same in
              absurd (cc (absent, ap (λ (k : String). lookup k s.attempts) at, found))
          | inr other ↦ Fate.unchanged (elsewhere s (run op s) c a id written other found)
        ]
    by_effect (Effect.moved b c there named edge only written) =
        elim (Bool-cases (str_eq c.attempt_id id)) [
          | inl same ↦
              let at : target op ≡ id =
                sym (filed.named (target op) b there)
                ∙ sym named
                ∙ (eq_iff c.attempt_id id).0 same in
              let b_is_a : b ≡ a =
                same_attempt (lookup id s.attempts) a b
                  (ap (λ (k : String). lookup k s.attempts) (sym at) ∙ there) found in
              Fate.advanced c (here s (run op s) c id written same) at
                (subst (λ (x : Attempt). x.state ⟶ c.state) b_is_a edge) only
          | inr other ↦ Fate.unchanged (elsewhere s (run op s) c a id written other found)
        ]

-- If every record stands in the file of its own id, it does so after every call.
pub run-IsFiled : (op : Operation) (s : Outbox) → IsFiled s → IsFiled (run op s).1
run-IsFiled op s filed = record { named = λ id a found. by_effect (run-Effect op s) id a found }
  where
    saved_named :
        (c : Attempt)
        → (run op s).1.attempts ≡ insert c.attempt_id (kept c) s.attempts
        → (id : String) (a : Attempt) → lookup id (run op s).1.attempts ≡ some (kept a)
        → a.attempt_id ≡ id
    saved_named c written id a found = elim (Bool-cases (str_eq c.attempt_id id)) [
      | inl same ↦
          let c_is_a = same_attempt _ a c (here s (run op s) c id written same) found in
          ap (λ (x : Attempt). x.attempt_id) (sym c_is_a) ∙ (eq_iff c.attempt_id id).0 same
      | inr other ↦
          filed.named id a (sym (lookup-saved s (run op s) c id written ∙ rw other) ∙ found)
    ]

    by_effect :
        Effect op s (run op s)
        → (id : String) (a : Attempt) → lookup id (run op s).1.attempts ≡ some (kept a)
        → a.attempt_id ≡ id
    by_effect (Effect.refused same e raised) id a found =
        filed.named id a (sym (ap (lookup id) same) ∙ found)
    by_effect (Effect.created c absent named fresh written) id a found =
        saved_named c written id a found
    by_effect (Effect.moved b c there named edge only written) id a found =
        saved_named c written id a found
