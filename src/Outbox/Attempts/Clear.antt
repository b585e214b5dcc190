-- ===== src/Outbox/Attempts/Clear.antt =====
-- engine/src/engine/options/order_outbox.py: which attempts are unresolved, and the check before a new entry.
use ibkr_strategy_engine.Prelude.{
  String, Bool, true, false, ◌&&◌, Option, none, some, List, [], ◌∷◌, select, length, ◌==◌,
  if◌then◌else◌,
}
use ibkr_strategy_engine.Prelude.Result.{Result, ok, err, ◌>>=◌, refuse_if}
use ibkr_strategy_engine.Prelude.Dict.{Dict}
use ibkr_strategy_engine.Outbox.Attempts.{
  OutboxState, OutboxError, Attempt, AttemptFile, corrupt, kept, Outbox, is_unknown,
}

-- `_BLOCKING_STATES`
abbrev is_blocking_state : OutboxState → Bool
is_blocking_state OutboxState.prepared = true
is_blocking_state OutboxState.approval_consumed = true
is_blocking_state OutboxState.send_intent = true
is_blocking_state OutboxState.ambiguous = true
is_blocking_state _ = false

abbrev is_outcome : OutboxState → Bool
is_outcome OutboxState.outcome = true
is_outcome _ = false

abbrev text_of : Option String → String
text_of none = ""
text_of (some t) = t

unfoldable pub is_blocking : Attempt → Bool
is_blocking a =
    if is_blocking_state a.state
    then true
    else is_outcome a.state && is_unknown (text_of a.classification)

-- `records`: every file must be readable.
unfoldable pub records : Dict AttemptFile → Result OutboxError (List Attempt)
records [] = ok []
records ((_, corrupt) ∷ files) = err OutboxError.corrupt_attempt
records ((_, kept a) ∷ files) = do rest ← records files; ok (a ∷ rest)

pub blocking_records : Outbox → Result OutboxError (List Attempt)
blocking_records s = do all ← records s.attempts; ok (select is_blocking all)

unfoldable pub assert_clear : Outbox → Result OutboxError Unit
unfolding blocking_records
assert_clear s = do
  blocking ← blocking_records s
  refuse_if (if length blocking == 0 then false else true) OutboxError.needs_reconciliation
