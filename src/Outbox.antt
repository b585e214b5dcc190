-- ===== src/Outbox.antt =====
-- engine/src/engine/options/order_outbox.py: the transmission budget and the execution outbox.
pub mod Budget
pub mod Attempts
mod Examples
