-- ===== src/OrderState/Verdicts.antt =====
-- engine/src/engine/options/orderstate.py: what `classify` and `snapshot_from_trade` guarantee.
use ibkr_strategy_engine.Prelude.{
  String, ℕ, ◌+◌, ℤ, pos, ◌≤ℤ◌, ltb_ℤ, leb_ℤ, ◌≡◌, refl, ◌↔◌, ◌⊎◌, Bool, true, false, ◌||◌, Option,
  none, some, arith, str_eq, is_some, ap, ◌∙◌, subst,
}
use ibkr_strategy_engine.OrderState.Broker.{
  OrderLifecycleState, decimal, is_terminal, is_working, is_uncertain,
}
use ibkr_strategy_engine.OrderState.{
  by_fill, by_text, Observation, Trade, Moment, BrokerOrderSnapshot, classify, snapshot_from_trade,
  of_int, filled_qty, status_text, is_cancelled, or_zero, observe, read_trade, post_init, explain,
  text_or_none,
}

by_fill_full :
    (text : String) (d : ℤ) (r : Option ℤ) (q : ℕ)
    → by_fill text d r (some q) ≡ OrderLifecycleState.filled
    → leb_ℤ (of_int q) d ≡ true
unfolding by_fill
by_fill_full text d none q h = ground arith
by_fill_full text d (some r) q h = ground arith

by_fill-states :
    (text : String) (d : ℤ) (r : Option ℤ) (q : Option ℕ)
    → let s = by_fill text d r q in
      (s ≡ OrderLifecycleState.partially_filled)
      ⊎ (s ≡ OrderLifecycleState.filled)
      ⊎ (s ≡ OrderLifecycleState.unknown)
unfolding by_fill
by_fill-states text d none q = ground arith
by_fill-states text d (some r) q = ground arith

abbrev pub nothing_remains : Option ℤ → Bool
nothing_remains none = false
nothing_remains (some r) = leb_ℤ r (pos 0)

abbrev pub as_number : Bool → ℕ
as_number true = 1
as_number false = 0

-- With nothing filled the state comes from the string.
by_text-states :
    (text : String) (timed_out : Bool)
    → let s = by_text text timed_out in
      (s ≡ OrderLifecycleState.submitted)
      ⊎ (s ≡ OrderLifecycleState.acknowledged)
      ⊎ ((s ≡ OrderLifecycleState.timed_out) × (timed_out ≡ true))
      ⊎ (s ≡ OrderLifecycleState.unknown)
unfolding by_text
by_text-states text timed_out = ground arith

-- With a known order size, FILLED is reported only when at least that size has filled.
classify_filled_is_full :
    (o : Observation) (q : ℕ)
    → o.quantity ≡ some q
    → classify o ≡ OrderLifecycleState.filled
    → of_int q ≤ℤ filled_qty o
unfolding classify
classify_filled_is_full o q known h = ground (
  arith,
  by_fill_full (status_text o) (filled_qty o) (decimal o.remaining) q,
  by_text-states (status_text o) o.timed_out,
)

-- A broker verdict of cancelled or inactive, read over a live connection, is never classified as a
-- working or uncertain order, whatever the fill counts say.
classify_dead_is_terminal :
    (o : Observation)
    → o.disconnected ≡ false
    → (is_cancelled (status_text o) || str_eq (status_text o) "inactive") ≡ true
    → is_terminal (classify o) ≡ true
unfolding classify is_terminal
classify_dead_is_terminal o up dead = ground arith

-- Every state answers exactly one of the three questions terminal, working and uncertain.
questions_partition :
    (s : OrderLifecycleState)
    → as_number (is_terminal s) + as_number (is_working s) + as_number (is_uncertain s) ≡ 1
unfolding is_terminal is_working is_uncertain
questions_partition OrderLifecycleState.filled = refl
questions_partition _ = refl

-- Reading a trade fails exactly when the time is naive or the broker reports a negative fill.
snapshot_fails_iff :
    (trade : Trade) (at : Moment) (quantity : Option ℕ) (timed_out disconnected : Bool)
    → (snapshot_from_trade trade at quantity timed_out disconnected ≡ none)
      ↔ ((at.aware ≡ false) ⊎ (ltb_ℤ (or_zero (decimal trade.filled)) (pos 0) ≡ true))
unfolding snapshot_from_trade
snapshot_fails_iff trade at quantity timed_out disconnected = (ground arith, ground arith)

post_init_lem : (s t : BrokerOrderSnapshot) → post_init s ≡ some t → s ≡ t
post_init_lem s t h = ground arith

-- A snapshot that says FILLED, taken with a known order size, records at least that size as filled.
pub snapshot_filled_is_full :
    (trade : Trade) (at : Moment) (q : ℕ) (timed_out disconnected : Bool) (s : BrokerOrderSnapshot)
    → snapshot_from_trade trade at (some q) timed_out disconnected ≡ some s
    → s.state ≡ OrderLifecycleState.filled
    → of_int q ≤ℤ s.filled
unfolding snapshot_from_trade
snapshot_filled_is_full trade at q timed_out disconnected s taken full =
    let e = post_init_lem (read_trade trade at (some q) timed_out disconnected) s taken in
    let o = observe trade (some q) timed_out disconnected in
    subst (λ (t : BrokerOrderSnapshot). of_int q ≤ℤ t.filled) e
      (classify_filled_is_full o q refl (ap (λ (t : BrokerOrderSnapshot). t.state) e ∙ full))

-- A snapshot taken while disconnected is UNKNOWN and carries a message that says why.
snapshot_disconnected :
    (trade : Trade) (at : Moment) (quantity : Option ℕ) (timed_out : Bool) (s : BrokerOrderSnapshot)
    → snapshot_from_trade trade at quantity timed_out true ≡ some s
    → (s.state ≡ OrderLifecycleState.unknown) × (is_some s.message ≡ true)
unfolding snapshot_from_trade classify
snapshot_disconnected trade at quantity timed_out s taken =
    let e = post_init_lem (read_trade trade at quantity timed_out true) s taken in
    subst
      (λ (t : BrokerOrderSnapshot).
        (t.state ≡ OrderLifecycleState.unknown) × (is_some t.message ≡ true))
      e (refl, explained (text_or_none trade.last_log_message))
  where
    explained : (m : Option String) → is_some (explain true timed_out m) ≡ true
    explained none = refl
    explained (some m) = refl
