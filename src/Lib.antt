-- ===== src/Lib.antt =====
-- Verification of the trading engine's order path (engine/src/engine).
--
-- The program. The engine sells defined-risk option spreads through a broker. A strategy is built
-- as a checked value (options/domain.py), approved against the account (options/governor.py), sent
-- to the broker under two durable safeguards (options/order_outbox.py): a budget that caps the
-- physical sends of a session, and an outbox that records each attempt and quarantines the
-- ambiguous ones. What the broker then shows is classified (options/orderstate.py), and the
-- classification is recorded in the outbox (options/transmit.py). What a spread is offered for is a
-- ladder of prices (options/pricing.py), and the requests that all of this sends to the broker are
-- drawn from one rolling allowance (options/pacing_ledger.py). The step from an approval to a send is
-- recorded in a journal of receipts (options/execution_outbox.py).
--
-- The parts.
-- - OrderState: engine/src/engine/options/orderstate.py. `classify` and `snapshot_from_trade` have
--   the source's names; `Observation` is the argument list of `classify`, `Trade` what an
--   `ib_async` trade shows. `Broker` holds the states and their three questions.
-- - Domain: engine/src/engine/options/domain.py. `make_leg` and `make_intent` are the
--   `__post_init__` of a leg and of a strategy, `check_*` its checks in the order they run;
--   `Closing` is `closing_intent`. `Loss` also holds `terminal_profit_per_share` of
--   engine/src/engine/options/risk.py, against which the recorded loss is measured.
-- - Outbox: engine/src/engine/options/order_outbox.py. `Budget` is `TransmissionBudget`, a method
--   taking the budget with its file, lock and journal and returning them; `Budget.Session` is the
--   step relation of the processes that share one. `Attempts` is `ExecutionOutbox`, `run`
--   performing one method call; `Attempts.Lifecycle` is its state diagram, `Attempts.Clear` the
--   check before a new entry, and `Attempts.Sends` the classification of
--   engine/src/engine/options/transmit.py.
-- - Governor: engine/src/engine/options/governor.py, with the book of
--   engine/src/engine/options/portfolio.py (`Portfolio`) and the caps and labels of
--   engine/src/engine/options/policy.py (`Policy`). `evaluate` gives the results of the six checks,
--   and `required_buying_power` is that of engine/src/engine/options/risk.py. A cap is a fraction
--   in ten-thousandths of net liquidation.
-- - Risk: engine/src/engine/options/risk.py, the checks of one candidate on its defined loss, the
--   broker's margin and the stress loss; `CandidateCaps` holds the caps of the policy that they read.
--   `Assess` is `assess_candidate`, which adds the next two parts.
-- - Quotes: engine/src/engine/options/marketdata.py, the gate on where a quote comes from, with
--   `StrategyQuoteSnapshot` of engine/src/engine/options/ports.py. The text of a contract's number as
--   a key is the number.
-- - Liquidity: engine/src/engine/options/liquidity.py, the gate on the book of a structure. `problems`
--   is the list of the reasons alone.
-- - Management: engine/src/engine/options/lifecycle.py, on the fields of `OpenPosition` in
--   engine/src/engine/options/positions.py that it reads. `decide_management_action` and
--   `closing_intent_for` have the source's names; the order is that of `Domain.Closing`. A filled credit
--   is in a quantum of its own, ten thousand times that of the debits and limit prices, so that the
--   target debit is exact.
-- - Safety: engine/src/engine/safety.py, the gates of a single share order. `SafetyGate` holds the
--   caps of the configuration with the halt file and the journal's count of the day, and the gates
--   and composites have the source's names.
-- - Pricing: engine/src/engine/options/pricing.py, the prices that a walk offers for a credit spread.
--   `Pricing` holds the tick schedules, `quantize_credit` and the credits that a book pays, where
--   `credit_of` is also `observed_credit` of engine/src/engine/options/proof.py; `Ladder` is
--   `PriceLadder` and `build_ladder`, one function for each of its stages. An amount is a number of
--   quanta of half the precision of a quote, so a midpoint is exact.
-- - Walk: engine/src/engine/options/walk.py, the loop that offers the rungs of a ladder one at a time.
--   `Orders` is the counting of fills and the cancellation, `Rung` and `Steps` the body of the loop in
--   the order of `PriceWalk.run`, `Run` the loop and what follows it. The outside is a `World`: what
--   each look, request, verification and send answers, by the number of the rung; the looks of one
--   cancellation are a list that ends at its deadline. A leave of the loop is an `Exit`. `let_go`, the
--   orders held before, is kept beside the variables of the code to state what became of them.
--   `Kept` is induction over the loop. `envelope_for` is that of engine/src/engine/options/proof.py.
-- - Pacing: engine/src/engine/options/pacing_ledger.py, the broker requests that the phases of a
--   session share, in a SQLite database. `Tables` holds the tables and the queries; a method takes
--   them and returns what it gives with the tables that its transaction leaves. `Cap.Run` is a
--   session, a sequence of calls. A time is a number of microseconds, the two
--   products of a limit and a float fraction are functions of the configuration, and the `uuid4` that a
--   reservation draws is an argument. `Shared` is
--   `SharedPacingBudget.acquire` of engine/src/engine/options/pacing.py, which draws on the ledger and
--   on a token bucket; what the bucket answers is an argument.
-- - Receipts: engine/src/engine/options/execution_outbox.py, the receipts that lead from an approval to
--   a send. `Receipts` is `ReceiptJournal`, `append_all` what processes that share one do to it; each
--   call comes with what the disk then does: the file may be left with a line cut, without its newline,
--   or split by a Unicode line separator in a string. `Intents` holds `ExecutionIntent` and `prepare`,
--   `Recording` the four methods that move a saga on, each an instance of `record_move`, `Recovery` the
--   quarantine, `unresolved` and `authorize_after_intent`. A method takes the appends of other
--   processes that fall between its own. `Contract` is the journal without its lines.
-- - Prelude: integers, lists, text, results and dictionaries that the parts share.
--
-- The model. A `Decimal` is an integer number of a common quantum (a ten-thousandth for broker
-- quantities), which is exact for the sums and products used; the float prices of safety.py are
-- taken as exact in the same way. An `int` that must be positive is a natural number, 0 standing
-- for what is refused. A date is its ordinal, a UUID its text, and text is stripped and compared in
-- ASCII case. An exception is an `err`, with one constructor for each cause; a dictionary is an
-- association list. JSON state files are the records that the code writes, or unreadable. A write of one
-- replaces its file whole or fails; whether the disk works is part of the state. A lock is a flag,
-- so the calls of several processes are a sequence of whole calls, a process that dies leaving the
-- lock behind. There is no fuel: every loop is over a list,
-- or counts down the rungs of a walk.
--
-- Not modelled: timestamps that no decision reads, callbacks that raise, the text renderings, and the parts of the repository that
-- are files, network, process supervision or market data around this path.
pub mod Domain
pub mod Governor
pub mod Liquidity
pub mod Management
pub mod OrderState
pub mod Outbox
pub mod Pacing
pub mod Prelude
pub mod Pricing
pub mod Quotes
pub mod Receipts
pub mod Risk
pub mod Safety
pub mod Walk
