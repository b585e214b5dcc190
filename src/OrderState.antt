-- ===== src/OrderState.antt =====
-- engine/src/engine/options/orderstate.py: what the broker did with an order, as a state.
pub mod Broker
pub mod Verdicts
mod Examples
use Broker.{OrderLifecycleState, BrokerField, decimal}
use ibkr_strategy_engine.Prelude.{
  ℕ, ◌*◌, ℤ, pos, String, Bool, true, false, ◌&&◌, ◌||◌, Option, none, some, str_eq, ltb_ℤ, leb_ℤ,
  eqb_ℤ, is_empty, is_some, lower, strip, if◌then◌else◌,
}

-- The keyword arguments of `classify`. `raw_status` is "" where the broker gave none.
pub record Observation : Type 0 where
  pub raw_status : String
  pub filled : BrokerField
  pub remaining : BrokerField
  pub quantity : Option ℕ
  pub timed_out : Bool
  pub disconnected : Bool
  pub rejected_message : Option String

-- `Decimal(n)` in the quantum of the model, a ten-thousandth.
abbrev pub of_int : ℕ → ℤ
of_int n = pos (n * 10_000)

-- `if message:`
abbrev pub is_message : Option String → Bool
is_message none = false
is_message (some m) = if is_empty m then false else true

-- `_decimal(value, ZERO) or ZERO`
abbrev pub or_zero : Option ℤ → ℤ
or_zero none = pos 0
or_zero (some d) = d

-- `quantity is not None and filled_qty >= Decimal(quantity)`
abbrev reaches : Option ℕ → ℤ → Bool
reaches none d = false
reaches (some q) d = leb_ℤ (of_int q) d

-- `quantity is not None and filled_qty < Decimal(quantity)`
abbrev pub falls_short : Option ℕ → ℤ → Bool
falls_short none d = false
falls_short (some q) d = ltb_ℤ d (of_int q)

-- The branch `filled_qty > ZERO`.
pub by_fill : String → ℤ → Option ℤ → Option ℕ → OrderLifecycleState
by_fill text filled_qty (some remaining_qty) quantity =
    if ltb_ℤ (pos 0) remaining_qty
    then OrderLifecycleState.partially_filled
    else if falls_short quantity filled_qty
    then OrderLifecycleState.unknown
    else OrderLifecycleState.filled
by_fill text filled_qty none quantity =
    if is_some quantity
    then (if reaches quantity filled_qty
        then OrderLifecycleState.filled
        else OrderLifecycleState.partially_filled)
    else if str_eq text "filled"
    then OrderLifecycleState.filled
    else OrderLifecycleState.partially_filled

-- Nothing filled: the status string, then the timeout.
pub by_text : String → Bool → OrderLifecycleState
by_text text timed_out =
    if str_eq text "filled"
    then OrderLifecycleState.unknown
    else if str_eq text "pendingsubmit" || str_eq text "presubmitted"
    then OrderLifecycleState.submitted
    else if str_eq text "submitted" || str_eq text "pendingcancel"
    then OrderLifecycleState.acknowledged
    else if timed_out
    then OrderLifecycleState.timed_out
    else OrderLifecycleState.unknown

-- `text`, the status as `classify` compares it.
abbrev pub status_text : Observation → String
status_text o = lower (strip o.raw_status)

abbrev pub filled_qty : Observation → ℤ
filled_qty o = or_zero (decimal o.filled)

abbrev pub is_cancelled : String → Bool
is_cancelled text = str_eq text "cancelled" || str_eq text "apicancelled"

pub classify : Observation → OrderLifecycleState
classify o =
    if o.disconnected
    then OrderLifecycleState.unknown
    else if is_message o.rejected_message
    then OrderLifecycleState.rejected
    else if is_cancelled (status_text o)
    then (if reaches o.quantity (filled_qty o)
        then OrderLifecycleState.filled
        else OrderLifecycleState.cancelled)
    else if str_eq (status_text o) "inactive"
    then OrderLifecycleState.inactive
    else if ltb_ℤ (pos 0) (filled_qty o)
    then by_fill (status_text o) (filled_qty o) (decimal o.remaining) o.quantity
    else by_text (status_text o) o.timed_out

-- A time that is or is not timezone-aware, in seconds.
pub record Moment : Type 0 where
  pub aware : Bool
  pub seconds : ℕ

pub record BrokerOrderSnapshot : Type 0 where
  pub state : OrderLifecycleState
  pub observed_at : Moment
  pub raw_status : String
  pub order_id : Option ℕ
  pub perm_id : Option ℕ
  pub filled : ℤ
  pub remaining : Option ℤ
  pub average_price : Option ℤ
  pub commission : Option ℤ
  pub message : Option String

-- `__post_init__`; `none` is the `ValueError`.
abbrev pub post_init : BrokerOrderSnapshot → Option BrokerOrderSnapshot
post_init s =
    if s.observed_at.aware then (if ltb_ℤ s.filled (pos 0) then none else some s) else none

-- What an `ib_async` `Trade` shows: an attribute that is missing or `None` is `absent`, `none`, or "".
pub record Trade : Type 0 where
  pub status : String
  pub filled : BrokerField
  pub remaining : BrokerField
  pub avg_fill_price : BrokerField
  pub commission : BrokerField
  pub order_id : Option ℕ
  pub order_perm_id : Option ℕ
  pub status_perm_id : Option ℕ
  pub last_log_message : String

-- Zero is an unpopulated price.
abbrev nonzero : Option ℤ → Option ℤ
nonzero none = none
nonzero (some d) = if eqb_ℤ d (pos 0) then none else some d

abbrev first_id : Option ℕ → Option ℕ → Option ℕ
first_id none b = b
first_id (some a) b = some a

-- `int(perm_id) if isinstance(perm_id, int) and perm_id else None`
abbrev usable_id : Option ℕ → Option ℕ
usable_id none = none
usable_id (some n) = if ltb_ℤ (pos 0) (pos n) then some n else none

abbrev pub text_or_none : String → Option String
text_or_none m = if is_empty m then none else some m

-- The rejection message: an `Inactive` status that comes with a message.
abbrev rejection_of : String → Option String → Option String
rejection_of raw_status message =
    if str_eq (lower (strip raw_status)) "inactive" && is_message message then message else none

-- The message that a lost connection or a timeout supplies where the broker gave none.
abbrev pub explain : Bool → Bool → Option String → Option String
explain disconnected timed_out (some m) = some m
explain disconnected timed_out none =
    if disconnected
    then some "connection lost while awaiting the order outcome"
    else if timed_out
    then some "no terminal status before the poll timeout expired"
    else none

-- The arguments that `snapshot_from_trade` passes to `classify`: decimals already read.
abbrev as_field : Option ℤ → BrokerField
as_field none = BrokerField.absent
as_field (some d) = BrokerField.number d

abbrev pub observe : Trade → Option ℕ → Bool → Bool → Observation
observe trade quantity timed_out disconnected = record {
  raw_status = trade.status;
  filled = BrokerField.number (or_zero (decimal trade.filled));
  remaining = as_field (decimal trade.remaining);
  quantity = quantity;
  timed_out = timed_out;
  disconnected = disconnected;
  rejected_message = rejection_of trade.status (text_or_none trade.last_log_message);
}

-- The snapshot before its own check.
abbrev pub read_trade : Trade → Moment → Option ℕ → Bool → Bool → BrokerOrderSnapshot
read_trade trade observed_at quantity timed_out disconnected = record {
  state = classify (observe trade quantity timed_out disconnected);
  observed_at = observed_at;
  raw_status = trade.status;
  order_id = trade.order_id;
  perm_id = usable_id (first_id trade.order_perm_id trade.status_perm_id);
  filled = or_zero (decimal trade.filled);
  remaining = decimal trade.remaining;
  average_price = nonzero (decimal trade.avg_fill_price);
  commission = decimal trade.commission;
  message = explain disconnected timed_out (text_or_none trade.last_log_message);
}

pub snapshot_from_trade : Trade → Moment → Option ℕ → Bool → Bool → Option BrokerOrderSnapshot
snapshot_from_trade trade observed_at quantity timed_out disconnected =
    post_init (read_trade trade observed_at quantity timed_out disconnected)

-- `has_position`
abbrev has_position : BrokerOrderSnapshot → Bool
has_position s = ltb_ℤ (pos 0) s.filled
