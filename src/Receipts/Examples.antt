-- ===== src/Receipts/Examples.antt =====
-- engine/src/engine/options/execution_outbox.py: one entry from its send intent to its outcome.
use ibkr_strategy_engine.Prelude.{
  ◌≡◌, refl, subst, ◌≤◌, ◌≢◌, arith, true, none, some, List, [], ◌∷◌, str_eq, strip,
}
use ibkr_strategy_engine.Prelude.Result.{ok, err}
use ibkr_strategy_engine.Receipts.{
  ReceiptKind, SendFacts, Payload, Receipt, JournalFile, Disk, Journal, AppendCall, current_version,
  find_key, for_saga, append, append_all,
}
use ibkr_strategy_engine.Receipts.Versions.{versions, times_used, no_receipts, append_all_numbered}
use ibkr_strategy_engine.Receipts.Contract.{IsSame, view, set_counter, append_refines}
use ibkr_strategy_engine.Receipts.Updates.{no_lost_update}
use ibkr_strategy_engine.Receipts.Prepared.{prepare_names_facts}
use ibkr_strategy_engine.Receipts.Pending.{IsAmong, unresolved_complete}
use ibkr_strategy_engine.Receipts.Intents.{
  OutboxState, ExecutionIntent, IntentError, state_after, last_version, intent_from_records, load,
  decimal, publish_call, prepare,
}
use ibkr_strategy_engine.Receipts.Recording.{
  Others, record_move, record_approval_consumed, record_broker_submission_observed,
}
use ibkr_strategy_engine.Receipts.Recovery.{
  Verifier, mark_recovery_required, sagas, unresolved_of, unresolved, authorize_after_intent,
}

decimal_test : decimal 1_209 ≡ "1209"
unfolding decimal
decimal_test = refl

abbrev facts : SendFacts
facts = record {
  logical_entry_id = "entry";
  proposal_revision = 2;
  approval_id = "yes-1";
  request_id = "ask-1";
  spec_digest = "d0";
  packet_digest = "d0";
}

-- Another approval of the same proposal.
abbrev rival : SendFacts
rival = record facts { approval_id = "yes-2" }

abbrev nobody : Others
nobody = record { between_reads = []; before_append = []; after_append = [] }

abbrev prepared : Journal
prepared = (prepare facts 5 "u1" [] no_receipts).1

abbrev intent : ExecutionIntent
intent = record {
  saga_id = "entry:2:d0";
  facts = facts;
  created_at = 5;
  version = 1;
  state = OutboxState.send_intent;
}

abbrev sent : Receipt
sent = record {
  receipt_id = "u1";
  kind = ReceiptKind.physical_send_intent;
  saga_id = "entry:2:d0";
  version = 1;
  at = 5;
  idempotency_key = "physical-send-intent:entry:2:d0";
  payload = Payload.send_facts facts;
}

prepared_test :
    prepare facts 5 "u1" [] no_receipts
    ≡ (ok (some intent), record { file = JournalFile.readable (sent ∷ []); disk = Disk.works })
unfolding prepare load intent_from_records state_after last_version append decimal current_version
    find_key strip
prepared_test = refl

rival_test : (prepare rival 6 "u2" [] prepared).0 ≡ err IntentError.different_facts
unfolding prepare load intent_from_records state_after last_version append decimal current_version
    find_key strip
rival_test = refl

-- A rival that has read before the intent was published is given the intent of the other approval.
race_test :
    (prepare rival 6 "u2" ((publish_call facts 5 "u1", Disk.works) ∷ []) no_receipts).0
    ≡ ok (some intent)
unfolding prepare load intent_from_records state_after last_version append decimal current_version
    find_key strip
race_test = refl

abbrev consumed : ExecutionIntent
consumed = record intent { version = 2; state = OutboxState.approval_consumed }

abbrev approves : Verifier
approves = record { rechecks = true; consumes = true }

authorize_test :
    (authorize_after_intent approves facts 5 "u1" "u2" [] nobody no_receipts).0 ≡ ok (some consumed)
unfolding authorize_after_intent record_approval_consumed record_move prepare load
    intent_from_records state_after last_version append decimal current_version find_key strip
authorize_test = refl

-- A process that holds the intent from before the approval was consumed is stopped.
stale_test :
    (record_broker_submission_observed intent "77" 9 "u3" nobody
      (authorize_after_intent approves facts 5 "u1" "u2" [] nobody no_receipts).1).0
    ≡ err IntentError.stale_intent
unfolding authorize_after_intent record_broker_submission_observed record_approval_consumed
    record_move prepare load intent_from_records state_after last_version append decimal
    current_version find_key strip
stale_test = refl

quarantine_test :
    (mark_recovery_required intent "crash" 9 "u3" nobody prepared).0
    ≡ ok (some (record intent { version = 2; state = OutboxState.recovery_required }))
unfolding mark_recovery_required prepare load intent_from_records state_after last_version append
    decimal current_version find_key strip
quarantine_test = refl

abbrev claim : AppendCall
claim = record {
  kind = ReceiptKind.logical_entry_claimed;
  saga_id = "entry:2:d0";
  at = 7;
  payload = Payload.details [];
  idempotency_key = "claim";
  expected_version = some 1;
  fresh = "u4";
}

abbrev scan : AppendCall
scan = record claim {
  kind = ReceiptKind.scan_started;
  saga_id = "scan";
  idempotency_key = "";
  expected_version = none;
}

abbrev claimed : Receipt
claimed = record {
  receipt_id = "u4";
  kind = ReceiptKind.logical_entry_claimed;
  saga_id = "entry:2:d0";
  version = 2;
  at = 7;
  idempotency_key = "claim";
  payload = Payload.details [];
}

append_refines_example :
    ((append claim (record { file = JournalFile.readable (sent ∷ []); disk = Disk.works })).0
      ≡ (set_counter claim (view (sent ∷ []))).0)
    × (rs' : List Receipt) × ((append claim
          (record { file = JournalFile.readable (sent ∷ []); disk = Disk.works })).1
        ≡ record { file = JournalFile.readable rs'; disk = Disk.works })
    × IsSame (view rs') (set_counter claim (view (sent ∷ []))).1
append_refines_example = append_refines claim (sent ∷ []) refl

-- The claim is refused by the disk, and made again.
append_all_numbered_example :
    (versions "entry:2:d0" (sent ∷ claimed ∷ []) ≡ 1 ∷ 2 ∷ [])
    × (times_used "claim" (sent ∷ claimed ∷ []) ≤ 1)
unfolding append decimal current_version find_key strip
append_all_numbered_example =
    append_all_numbered
      ((publish_call facts 5 "u1", Disk.works)
        ∷ (claim, Disk.refuses)
        ∷ (claim, Disk.works)
        ∷ (claim, Disk.works)
        ∷ [])
      (sent ∷ claimed ∷ []) "entry:2:d0" "claim" refl refl

abbrev scanned : Receipt
scanned = record claimed {
  kind = ReceiptKind.scan_started;
  saga_id = "scan";
  version = 1;
  idempotency_key = "";
}

no_lost_update_example : for_saga "entry:2:d0" (sent ∷ scanned ∷ []) ≡ sent ∷ []
unfolding append current_version find_key strip
no_lost_update_example =
    no_lost_update claim ((scan, Disk.works) ∷ [])
      (record { file = JournalFile.readable (sent ∷ []); disk = Disk.works }) (sent ∷ [])
      (sent ∷ scanned ∷ []) Disk.works claimed refl refl refl refl refl

sent_owns_key :
    (r : Receipt)
    → find_key "physical-send-intent:entry:2:d0" (sent ∷ []) ≡ some r
    → str_eq r.saga_id "entry:2:d0" ≡ true
unfolding find_key
sent_owns_key r h =
    let same : sent ≡ r = cc in
    subst (λ (y : Receipt). str_eq y.saga_id "entry:2:d0" ≡ true) same refl

prepare_names_facts_example : intent.facts ≡ facts
unfolding prepare load intent_from_records state_after last_version append decimal current_version
    find_key strip
prepare_names_facts_example =
    prepare_names_facts facts 9 "u9" (sent ∷ []) Disk.works intent sent_owns_key refl

not_over : OutboxState.recovery_required ≢ OutboxState.order_outcome
not_over h = ground arith

not_cleared : OutboxState.recovery_required ≢ OutboxState.recovery_cleared
not_cleared h = ground arith

-- An intent that was quarantined.
abbrev quarantined : ExecutionIntent
quarantined = record intent { version = 2; state = OutboxState.recovery_required }

abbrev crashed : Journal
crashed = (mark_recovery_required intent "crash" 9 "u3" nobody prepared).1

unresolved_complete_example : IsAmong quarantined (quarantined ∷ [])
unfolding mark_recovery_required prepare decimal current_version find_key strip append unresolved
    unresolved_of sagas load intent_from_records state_after last_version
unresolved_complete_example =
    unresolved_complete crashed (quarantined ∷ []) "entry:2:d0" quarantined refl refl not_over
      not_cleared

-- After a line that lacks its newline, and after one that `splitlines` splits, nothing can be read.
glued_test :
    (append_all ((claim, Disk.cuts_newline) ∷ (scan, Disk.works) ∷ []) prepared).file
    ≡ JournalFile.unreadable
unfolding prepare load intent_from_records append decimal current_version find_key strip
glued_test = refl
