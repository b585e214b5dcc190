-- ===== src/Outbox/Attempts/Sends.antt =====
-- engine/src/engine/options/transmit.py: the classification that a send records in the outbox, and which
-- sends then keep a new entry back.
use ibkr_strategy_engine.Prelude.{String, ◌≡◌, refl, ap, ◌∙◌, Option, none, some, upper}
use ibkr_strategy_engine.Prelude.Result.{ok}
use ibkr_strategy_engine.Prelude.Dict.{lookup}
use ibkr_strategy_engine.OrderState.Broker.{OrderLifecycleState, is_uncertain}
use ibkr_strategy_engine.Outbox.Attempts.{
  OutboxState, OutboxError, Attempt, AttemptFile, corrupt, kept, Event, Disk, healthy, no_write,
  no_receipt, Outbox, concluding, run, on_file, unless, transition_guard, transition, save, save_on,
  outcome_state, outcome_event,
}
use ibkr_strategy_engine.Outbox.Attempts.Clear.{is_blocking}

-- The classification of the order's final state.
unfoldable pub classification_of : OrderLifecycleState → String
classification_of OrderLifecycleState.filled = "FILLED"
classification_of OrderLifecycleState.partially_filled = "PARTIAL"
classification_of OrderLifecycleState.submitted = "WORKING"
classification_of OrderLifecycleState.acknowledged = "WORKING"
classification_of OrderLifecycleState.cancelled = "CANCELLED"
classification_of OrderLifecycleState.rejected = "CANCELLED"
classification_of OrderLifecycleState.inactive = "CANCELLED"
classification_of OrderLifecycleState.timed_out = "UNKNOWN"
classification_of OrderLifecycleState.unknown = "UNKNOWN"

save_on-returned :
    (d : Disk) (s t : Outbox) (c a : Attempt) (event : Event) (extra : Option String)
    → save_on d s c event extra ≡ (ok a, t)
    → a ≡ c
save_on-returned healthy s t c a event extra h = cc
save_on-returned no_write s t c a event extra h = cc
save_on-returned no_receipt s t c a event extra h = cc

-- A transition that returned gave a record in its new state.
transition-returned :
    (id : String) (to : OutboxState) (event : Event) (fields : Attempt → Attempt) (s t : Outbox)
    (a : Attempt)
    → transition id to event fields s ≡ (ok a, t)
    → (b : Attempt) × (a ≡ record (fields b) { state = to })
unfolding transition save
transition-returned id to event fields s t a h = by_file (lookup id s.attempts) h
  where
    by_guard :
        (b : Attempt) (g : Option OutboxError)
        → unless g s (save_on s.disk s (record (fields b) { state = to }) event none) ≡ (ok a, t)
        → (b : Attempt) × (a ≡ record (fields b) { state = to })
    by_guard b (some e) h = cc
    by_guard b none h = (b, save_on-returned s.disk s t _ a event none h)

    by_file :
        (f : Option AttemptFile)
        → on_file s f (λ b.
          unless
            (transition_guard b.state to)
            s
            (save_on s.disk s (record (fields b) { state = to }) event none))
          ≡ (ok a, t)
        → (b : Attempt) × (a ≡ record (fields b) { state = to })
    by_file none h = cc
    by_file (some corrupt) h = cc
    by_file (some (kept b)) h = by_guard b (transition_guard b.state to) h

-- The record that `outcome` writes over `b`.
abbrev concluded : String → String → Attempt → Attempt
concluded c observation b = record b {
  state = outcome_state c;
  classification = some (upper c);
  observation = some observation;
}

-- Once a send's final state is recorded, the attempt keeps new entries back exactly when that state is
-- uncertain: a timeout, or unknown.
pub transmit_outcome_blocks :
    (st : OrderLifecycleState) (id observation : String) (s t : Outbox) (a : Attempt)
    → run (concluding id (classification_of st) observation) s ≡ (ok a, t)
    → is_blocking a ≡ is_uncertain st
unfolding run classification_of is_uncertain is_blocking upper
transmit_outcome_blocks st id observation s t a h =
    let c = classification_of st in
    let (b, e) =
      transition-returned id (outcome_state c) (outcome_event c) (concluded c observation) s t a
        h in
    ap is_blocking e ∙ by_state st b
  where
    by_state :
        (st : OrderLifecycleState) (b : Attempt)
        → is_blocking (concluded (classification_of st) observation b) ≡ is_uncertain st
    by_state OrderLifecycleState.filled b = refl
    by_state OrderLifecycleState.partially_filled b = refl
    by_state OrderLifecycleState.submitted b = refl
    by_state OrderLifecycleState.acknowledged b = refl
    by_state OrderLifecycleState.cancelled b = refl
    by_state OrderLifecycleState.rejected b = refl
    by_state OrderLifecycleState.inactive b = refl
    by_state OrderLifecycleState.timed_out b = refl
    by_state OrderLifecycleState.unknown b = refl
