-- ===== src/Receipts/Recovery.antt =====
-- engine/src/engine/options/execution_outbox.py: the quarantine of a saga, what a restart finds unresolved, and
-- `authorize_after_intent`, whose `facts` are those of the approval and of the packet.
use ibkr_strategy_engine.Prelude.{
  ◌^◌, ℕ, String, Bool, true, false, ◌&&◌, Option, none, some, List, [], ◌∷◌, any, str_eq,
  if◌then◌else◌,
}
use ibkr_strategy_engine.Prelude.Result.{Result, ok, err, ◌>>=◌}
use ibkr_strategy_engine.Receipts.{
  ReceiptKind, SendFacts, Payload, Receipt, Journal, AppendCall, read, for_saga, append, append_all,
}
use ibkr_strategy_engine.Receipts.Intents.{
  OutboxState, ExecutionIntent, IntentError, intent_from_records, load, raised, Called, Calls,
  prepare,
}
use ibkr_strategy_engine.Receipts.Recording.{Others, reload, record_approval_consumed}

-- A saga that is quarantined or over stays as it is.
abbrev pub is_settled : OutboxState → Bool
is_settled OutboxState.recovery_required = true
is_settled OutboxState.order_outcome = true
is_settled OutboxState.recovery_cleared = true
is_settled _ = false

abbrev pub quarantine_call : String → String → ℕ → String → ℕ → AppendCall
quarantine_call saga reason at fresh version = record {
  kind = ReceiptKind.recovery_required;
  saga_id = saga;
  at = at;
  payload = Payload.details (("reason", reason) ∷ []);
  idempotency_key = "recovery-required:" ^ saga;
  expected_version = some version;
  fresh = fresh;
}

abbrev pub quarantine_from :
    String
    → (ℕ → AppendCall)
    → Others
    → Journal
    → Result IntentError (Option ExecutionIntent)
    → Called
quarantine_from saga call o j (err e) = (err e, j)
quarantine_from saga call o j (ok none) = (err IntentError.not_durable, j)
quarantine_from saga call o j (ok (some current)) =
    if is_settled current.state
    then (ok (some current), j)
    else reload saga o.after_append (append (call current.version) (append_all o.before_append j))

unfoldable pub mark_recovery_required :
    ExecutionIntent → String → ℕ → String → Others → Journal → Called
mark_recovery_required intent reason at fresh o j =
    quarantine_from intent.saga_id (quarantine_call intent.saga_id reason at fresh) o j
      (load intent.saga_id j)

-- The keys of `grouped`, in the order of the file.
unfoldable pub sagas : List String → List Receipt → List String
sagas seen [] = []
sagas seen (r ∷ rs) =
    let new = sagas (r.saga_id ∷ seen) rs in
    let old = sagas seen rs in if any (str_eq r.saga_id) seen then old else r.saga_id ∷ new

abbrev pub is_over : OutboxState → Bool
is_over OutboxState.order_outcome = true
is_over OutboxState.recovery_cleared = true
is_over _ = false

abbrev pub add_unresolved : Option ExecutionIntent → List ExecutionIntent → List ExecutionIntent
add_unresolved none rest = rest
add_unresolved (some i) rest = if is_over i.state then rest else i ∷ rest

unfoldable pub unresolved_of :
    List String → List Receipt → Result IntentError (List ExecutionIntent)
unresolved_of [] rs = ok []
unresolved_of (saga ∷ names) rs = do
  intent ← intent_from_records (for_saga saga rs)
  rest ← unresolved_of names rs
  ok (add_unresolved intent rest)

unfoldable pub unresolved : Journal → Result IntentError (List ExecutionIntent)
unfolding sagas unresolved_of
unresolved j = do rs ← raised (read j.file); unresolved_of (sagas [] rs) rs

-- What the `_Verifier` of the caller does: whether each of its two calls returns.
pub record Verifier : Type 0 where
  pub rechecks : Bool
  pub consumes : Bool

-- An exception of the verifier, or of the outbox.
pub data AuthorizeError : Type 0 where
  verifier : AuthorizeError
  outbox : IntentError → AuthorizeError

abbrev pub Authorized : Type 0
Authorized = Result AuthorizeError (Option ExecutionIntent) × Journal

abbrev pub from_outbox : Called → Authorized
from_outbox (ok i, j) = (ok i, j)
from_outbox (err e, j) = (err (AuthorizeError.outbox e), j)

-- The calls after `prepare`, which never returns `None`.
abbrev pub consume_after : Verifier → ℕ → String → Others → Called → Authorized
consume_after v at fresh o (err e, j) = (err (AuthorizeError.outbox e), j)
consume_after v at fresh o (ok none, j) = (err (AuthorizeError.outbox IntentError.not_durable), j)
consume_after v at fresh o (ok (some intent), j) =
    if v.rechecks && v.consumes
    then from_outbox (record_approval_consumed intent at fresh o j)
    else (err AuthorizeError.verifier, j)

unfoldable pub authorize_after_intent :
    Verifier → SendFacts → ℕ → String → String → Calls → Others → Journal → Authorized
unfolding record_approval_consumed
authorize_after_intent v facts now fresh fresh' others o j =
    consume_after v now fresh' o (prepare facts now fresh others j)
