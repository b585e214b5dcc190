-- ===== src/Safety.antt =====
-- engine/src/engine/safety.py: the gates of a single order. A price or an amount of money is an exact
-- integer number of a common quantum. The configuration, the kill switch and the journal's count of
-- today's orders are the arguments of a gate that reads them.
pub mod Caps
mod Examples
use ibkr_strategy_engine.Prelude.{
  ℕ, suc, ℤ, pos, negsuc, ◌+ℤ◌, ◌-ℤ◌, ◌*ℤ◌, ltb_ℤ, leb_ℤ, leb, abs, String, Bool, not, str_eq, ◌||◌,
  Option, none, some, is_some, List, any, strip, upper, if◌then◌else◌,
}
use ibkr_strategy_engine.Prelude.Result.{Result, ok, err, ◌>>=◌, ◌>>◌, refuse_if}

pub data SafetyError : Type 0 where
  halted not_armed symbol_not_allowed quantity_not_positive unknown_side : SafetyError
  over_position no_reference_price price_not_positive over_notional : SafetyError
  session_count_reached margin_unknown over_margin : SafetyError

pub record OrderIntent : Type 0 where
  pub symbol : String
  pub quantity : ℤ
  pub side : String
  pub limit_price : Option ℤ

-- The caps of `EngineConfig`, the reason in the halt file where it exists, and `orders_today()`.
pub record SafetyGate : Type 0 where
  pub symbol_allowlist : List String
  pub max_position_qty : ℤ
  pub max_order_notional : ℤ
  pub max_orders_per_session : ℕ
  pub max_margin_impact : ℤ
  pub halt_file : Option String
  pub orders_today : ℕ

pub normalized_intent : OrderIntent → OrderIntent
normalized_intent i = record i { symbol = upper (strip i.symbol); side = upper (strip i.side) }

abbrev assert_not_halted : SafetyGate → Result SafetyError Unit
assert_not_halted g = refuse_if (is_some g.halt_file) SafetyError.halted

abbrev pub gate_armed : Bool → Result SafetyError Unit
gate_armed armed = refuse_if (not armed) SafetyError.not_armed

abbrev gate_symbol : SafetyGate → OrderIntent → Result SafetyError Unit
gate_symbol g i =
    refuse_if (not (any (str_eq i.symbol) g.symbol_allowlist)) SafetyError.symbol_not_allowed

abbrev pub gate_quantity : OrderIntent → Result SafetyError Unit
gate_quantity i = do
  refuse_if (leb_ℤ i.quantity (pos 0)) SafetyError.quantity_not_positive
  refuse_if (not (str_eq i.side "BUY" || str_eq i.side "SELL")) SafetyError.unknown_side

-- The position once `quantity` is traded on `side`.
pub resulting_position : String → ℤ → ℤ → ℤ
resulting_position side current_qty quantity =
    if str_eq side "BUY" then current_qty +ℤ quantity else current_qty -ℤ quantity

pub gate_position : SafetyGate → OrderIntent → ℤ → Result SafetyError Unit
gate_position g i current_qty =
    refuse_if
      (ltb_ℤ g.max_position_qty (pos (abs (resulting_position i.side current_qty i.quantity))))
      SafetyError.over_position

pub notional_of : ℤ → ℤ → ℤ
notional_of price (pos n) = price *ℤ n
notional_of price (negsuc n) = (pos 0 -ℤ price) *ℤ suc n

pub gate_notional : SafetyGate → OrderIntent → Option ℤ → Result SafetyError Unit
gate_notional g i none = err SafetyError.no_reference_price
gate_notional g i (some price) = do
  refuse_if (leb_ℤ price (pos 0)) SafetyError.price_not_positive
  refuse_if (ltb_ℤ g.max_order_notional (notional_of price i.quantity)) SafetyError.over_notional

abbrev gate_daily_count : SafetyGate → Result SafetyError Unit
gate_daily_count g =
    refuse_if (leb g.max_orders_per_session g.orders_today) SafetyError.session_count_reached

abbrev gate_margin : SafetyGate → Option ℤ → Result SafetyError Unit
gate_margin g none = err SafetyError.margin_unknown
gate_margin g (some margin_impact) =
    refuse_if (ltb_ℤ g.max_margin_impact margin_impact) SafetyError.over_margin

pub check_preflight : SafetyGate → OrderIntent → Result SafetyError OrderIntent
check_preflight g i = do
  assert_not_halted g
  gate_quantity (normalized_intent i)
  gate_symbol g (normalized_intent i)
  ok (normalized_intent i)

pub check_tradeable : SafetyGate → OrderIntent → Option ℤ → ℤ → Result SafetyError OrderIntent
check_tradeable g i reference_price current_qty = do
  gate_position g (normalized_intent i) current_qty
  gate_notional g (normalized_intent i) reference_price
  gate_daily_count g
  ok (normalized_intent i)

pub check : SafetyGate → OrderIntent → Bool → Option ℤ → ℤ → Result SafetyError OrderIntent
check g i armed reference_price current_qty = do
  normalized ← check_preflight g i
  gate_armed armed
  check_tradeable g normalized reference_price current_qty

pub check_preview : SafetyGate → OrderIntent → Result SafetyError OrderIntent
check_preview g i = do
  assert_not_halted g
  gate_quantity (normalized_intent i)
  gate_symbol g (normalized_intent i)
  ok (normalized_intent i)
