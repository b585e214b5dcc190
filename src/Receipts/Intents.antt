-- ===== src/Receipts/Intents.antt =====
-- engine/src/engine/options/execution_outbox.py: `ExecutionOutbox`. A method reads and appends under the lock
-- one at a time, so other processes append in between: `Others` holds what they append, and when. The six
-- facts of a send are one field of an intent.
use ibkr_strategy_engine.Prelude.{
  ◌^◌, ℕ, zero, suc, ◌+◌, ◌==◌, String, Bool, str_eq, ◌&&◌, Option, none, some, List, [], ◌∷◌,
  if◌then◌else◌,
}
use ibkr_strategy_engine.Prelude.Result.{Result, ok, err, ◌>>=◌}
use ibkr_strategy_engine.Receipts.{
  ReceiptKind, SendFacts, Payload, Receipt, ReceiptError, Disk, Journal, AppendCall, read, for_saga,
  Appended, append, append_all,
}
use Prim.Native.String.{slice}

pub data OutboxState : Type 0 where
  send_intent approval_consumed broker_submission_observed order_outcome recovery_required
        recovery_cleared :
      OutboxState

pub record ExecutionIntent : Type 0 where
  pub saga_id : String
  pub facts : SendFacts
  pub created_at : ℕ
  pub version : ℕ
  pub state : OutboxState

pub data IntentError : Type 0 where
  receipt : ReceiptError → IntentError
  missing_fact different_facts not_durable stale_intent wrong_state : IntentError

abbrev pub after_kind : OutboxState → ReceiptKind → OutboxState
after_kind st ReceiptKind.review_approval_consumed = OutboxState.approval_consumed
after_kind st ReceiptKind.broker_submission_observed = OutboxState.broker_submission_observed
after_kind st ReceiptKind.order_outcome = OutboxState.order_outcome
after_kind st ReceiptKind.recovery_required = OutboxState.recovery_required
after_kind st ReceiptKind.recovery_cleared = OutboxState.recovery_cleared
after_kind st _ = st

unfoldable pub state_after : OutboxState → List Receipt → OutboxState
state_after st [] = st
state_after st (r ∷ rs) = state_after (after_kind st r.kind) rs

unfoldable pub last_version : ℕ → List Receipt → ℕ
last_version v [] = v
last_version v (r ∷ rs) = last_version r.version rs

abbrev pub intent_of :
    Receipt → List Receipt → Payload → Result IntentError (Option ExecutionIntent)
intent_of first rest (Payload.details _) = err IntentError.missing_fact
intent_of first rest (Payload.send_facts facts) = ok (
    some (record {
      saga_id = first.saga_id;
      facts = facts;
      created_at = first.at;
      version = last_version first.version rest;
      state = state_after OutboxState.send_intent rest;
    }))

-- `_intent_from_records`
unfoldable pub intent_from_records : List Receipt → Result IntentError (Option ExecutionIntent)
intent_from_records [] = ok none
intent_from_records (first ∷ rest) = intent_of first rest first.payload

abbrev pub raised : {A : Type 0} → Result ReceiptError A → Result IntentError A
raised (err e) = err (IntentError.receipt e)
raised (ok a) = ok a

-- `_intent_from_records(self._records(saga_id))`
unfoldable pub load : String → Journal → Result IntentError (Option ExecutionIntent)
load saga j = do rs ← raised (read j.file); intent_from_records (for_saga saga rs)

-- `str` of a number that is not negative: its decimal digits, the last one first.
next_digits : List ℕ → List ℕ
next_digits [] = 1 ∷ []
next_digits (d ∷ ds) = let rest = next_digits ds in if d == 9 then (0 ∷ rest) else ((d + 1) ∷ ds)

digits : ℕ → List ℕ
unfolding next_digits
digits zero = 0 ∷ []
digits (suc n) = next_digits (digits n)

spell : List ℕ → String
spell [] = ""
spell (d ∷ ds) = spell ds ^ slice "0123456789" d (d + 1)

unfoldable pub decimal : ℕ → String
unfolding digits spell
decimal n = spell (digits n)

abbrev pub saga_of : SendFacts → String
saga_of f = f.logical_entry_id ^ ":" ^ decimal f.proposal_revision ^ ":" ^ f.spec_digest

-- `actual != expected`
abbrev pub same_facts : SendFacts → SendFacts → Bool
same_facts a b =
    str_eq a.logical_entry_id b.logical_entry_id
    && a.proposal_revision == b.proposal_revision
    && str_eq a.approval_id b.approval_id
    && str_eq a.request_id b.request_id
    && str_eq a.spec_digest b.spec_digest
    && str_eq a.packet_digest b.packet_digest

abbrev pub Called : Type 0
Called = Result IntentError (Option ExecutionIntent) × Journal

abbrev pub Calls : Type 0
Calls = List (AppendCall × Disk)

abbrev pub intent_key : String → String
intent_key saga = "physical-send-intent:" ^ saga

abbrev pub publish_call : SendFacts → ℕ → String → AppendCall
publish_call facts at fresh = record {
  kind = ReceiptKind.physical_send_intent;
  saga_id = saga_of facts;
  at = at;
  payload = Payload.send_facts facts;
  idempotency_key = intent_key (saga_of facts);
  expected_version = none;
  fresh = fresh;
}

-- The intent of one receipt.
abbrev pub published : Appended → Called
published (err e, j) = (err (IntentError.receipt e), j)
published (ok r, j) = (intent_from_records (r ∷ []), j)

abbrev pub prepare_from :
    SendFacts → ℕ → String → Calls → Journal → Result IntentError (Option ExecutionIntent) → Called
prepare_from facts at fresh others j (err e) = (err e, j)
prepare_from facts at fresh others j (ok (some i)) =
    if same_facts i.facts facts then (ok (some i), j) else (err IntentError.different_facts, j)
prepare_from facts at fresh others j (ok none) =
    published (append (publish_call facts at fresh) (append_all others j))

unfoldable pub prepare : SendFacts → ℕ → String → Calls → Journal → Called
prepare facts at fresh others j = prepare_from facts at fresh others j (load (saga_of facts) j)
