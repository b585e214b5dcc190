-- ===== src/Safety/Caps.antt =====
-- engine/src/engine/safety.py: what an order that passed every gate can do.
use ibkr_strategy_engine.Prelude.{
  ◌≡◌, ◌⊎◌, inl, inr, refl, sym, ap, subst, ℕ, ◌≤◌, ◌<◌, ℤ, pos, negsuc, ◌≤ℤ◌, ◌<ℤ◌, ◌+ℤ◌, ◌-ℤ◌,
  abs, String, Bool, true, str_eq, eq_iff, Option, none, some, any, strip, upper, arith, Bool-cases,
}
use ibkr_strategy_engine.Prelude.Result.{ok, >>=-eq-ok, >>-eq-ok}
use ibkr_strategy_engine.Safety.{
  OrderIntent, SafetyGate, normalized_intent, gate_armed, gate_quantity, resulting_position,
  gate_position, notional_of, gate_notional, check_preflight, check_tradeable, check,
}

-- The order that goes on after both halves.
abbrev pub passed : OrderIntent → OrderIntent
passed i = normalized_intent (normalized_intent i)

-- What the gates have established of an order.
pub record IsCleared (g : SafetyGate) (i : OrderIntent) (armed : Bool) (price : Option ℤ)
    (current : ℤ) : Type 0 where
  pub running : g.halt_file ≡ none
  pub deliberate : armed ≡ true
  pub allowed : any (str_eq (normalized_intent i).symbol) g.symbol_allowlist ≡ true
  pub positive : pos 0 <ℤ i.quantity
  pub sided : ((passed i).side ≡ "BUY") ⊎ ((passed i).side ≡ "SELL")
  pub position :
      pos (abs (resulting_position (passed i).side current i.quantity)) ≤ℤ g.max_position_qty
  pub priced :
      (p : ℤ) × (price ≡ some p) × (pos 0 <ℤ p) × (notional_of p i.quantity ≤ℤ g.max_order_notional)
  pub counted : g.orders_today < g.max_orders_per_session

side_again :
    (s : String)
    → (s ≡ "BUY") ⊎ (s ≡ "SELL")
    → (upper (strip s) ≡ "BUY") ⊎ (upper (strip s) ≡ "SELL")
unfolding upper strip
side_again s (inl h) = inl (ap (λ (x : String). upper (strip x)) h)
side_again s (inr h) = inr (ap (λ (x : String). upper (strip x)) h)

quantity_gated :
    (i : OrderIntent)
    → gate_quantity i ≡ ok tt
    → (pos 0 <ℤ i.quantity) × ((i.side ≡ "BUY") ⊎ (i.side ≡ "SELL"))
quantity_gated i h = (ground arith, ground (arith, eq_iff i.side "BUY", eq_iff i.side "SELL"))

notional_gated :
    (g : SafetyGate) (i : OrderIntent) (price : Option ℤ)
    → gate_notional g i price ≡ ok tt
    → (p : ℤ) × (price ≡ some p) × (pos 0 <ℤ p) × (notional_of p i.quantity ≤ℤ g.max_order_notional)
unfolding gate_notional
notional_gated g i none h = cc
notional_gated g i (some p) h = (p, refl, ground arith, ground arith)

preflight_gated :
    (g : SafetyGate) (i n : OrderIntent)
    → check_preflight g i ≡ ok n
    → (n ≡ normalized_intent i)
      × (g.halt_file ≡ none)
      × (gate_quantity (normalized_intent i) ≡ ok tt)
      × (any (str_eq (normalized_intent i).symbol) g.symbol_allowlist ≡ true)
unfolding check_preflight
preflight_gated g i n h = (ground arith, ground arith, ground arith, ground arith)

tradeable_gated :
    (g : SafetyGate) (i t : OrderIntent) (price : Option ℤ) (current : ℤ)
    → check_tradeable g i price current ≡ ok t
    → (t ≡ normalized_intent i)
      × (pos (abs (resulting_position (normalized_intent i).side current i.quantity))
          ≤ℤ g.max_position_qty)
      × (gate_notional g (normalized_intent i) price ≡ ok tt)
      × (g.orders_today < g.max_orders_per_session)
unfolding check_tradeable gate_position normalized_intent
tradeable_gated g i t price current h = (ground arith, ground arith, ground arith, ground arith)

pub check-IsCleared :
    (g : SafetyGate) (i t : OrderIntent) (armed : Bool) (price : Option ℤ) (current : ℤ)
    → check g i armed price current ≡ ok t
    → (t ≡ passed i) × IsCleared g i armed price current
unfolding check normalized_intent
check-IsCleared g i t armed price current h =
    let (n, pre, rest) = >>=-eq-ok (check_preflight g i) _ h in
    let (gated, trade) = >>-eq-ok (gate_armed armed) _ rest in
    let (same, running, quantity, allowed) = preflight_gated g i n pre in
    let trade' = subst (λ (m : OrderIntent). check_tradeable g m price current ≡ ok t) same trade in
    let (same', position, notional, count) =
      tradeable_gated g (normalized_intent i) t price current trade' in
    let (positive, sided) = quantity_gated (normalized_intent i) quantity in
    (
      same',
      record {
        running = running;
        deliberate = ground arith;
        allowed = allowed;
        positive = positive;
        sided = side_again (normalized_intent i).side sided;
        position = position;
        priced = notional_gated g (passed i) price notional;
        counted = count;
      },
    )

bought_part :
    (current cap : ℤ) (part whole : ℕ)
    → part ≤ whole
    → pos (abs current) ≤ℤ cap
    → pos (abs (current +ℤ pos whole)) ≤ℤ cap
    → pos (abs (current +ℤ pos part)) ≤ℤ cap
unfolding ◌+ℤ◌
bought_part (pos c) cap part whole fits start end = ground arith
bought_part (negsuc c) cap part whole fits start end = ground arith

sold_part :
    (current cap : ℤ) (part whole : ℕ)
    → part ≤ whole
    → pos (abs current) ≤ℤ cap
    → pos (abs (current -ℤ pos whole)) ≤ℤ cap
    → pos (abs (current -ℤ pos part)) ≤ℤ cap
unfolding ◌-ℤ◌
sold_part (pos c) cap part whole fits start end = ground arith
sold_part (negsuc c) cap part whole fits start end = ground arith

-- Part of an order leads to a position between the two ends.
part_within :
    (side : String) (current : ℤ) (part whole : ℕ) (cap : ℤ)
    → part ≤ whole
    → pos (abs current) ≤ℤ cap
    → pos (abs (resulting_position side current (pos whole))) ≤ℤ cap
    → pos (abs (resulting_position side current (pos part))) ≤ℤ cap
unfolding resulting_position
part_within side current part whole cap fits start end = elim (Bool-cases (str_eq side "BUY")) [
  | inl buys ↦ rw buys (bought_part current cap part whole fits start (rw buys at end))
  | inr sells ↦ rw sells (sold_part current cap part whole fits start (rw sells at end))
]

-- While the position held is within its cap, any part of an order that passed every gate leaves it there.
pub check_keeps_cap :
    (g : SafetyGate) (i t : OrderIntent) (armed : Bool) (price : Option ℤ) (current : ℤ)
    (whole part : ℕ)
    → check g i armed price current ≡ ok t
    → t.quantity ≡ pos whole
    → part ≤ whole
    → pos (abs current) ≤ℤ g.max_position_qty
    → pos (abs (resulting_position t.side current (pos part))) ≤ℤ g.max_position_qty
unfolding normalized_intent
check_keeps_cap g i t armed price current whole part h size fits within =
    let (same, cleared) = check-IsCleared g i t armed price current h in
    let end =
      subst
        (λ (x : OrderIntent).
          pos (abs (resulting_position x.side current x.quantity)) ≤ℤ g.max_position_qty)
        (sym same) cleared.position in
    part_within t.side current part whole g.max_position_qty fits within (
      subst (λ (q : ℤ). pos (abs (resulting_position t.side current q)) ≤ℤ g.max_position_qty) size
        end)
