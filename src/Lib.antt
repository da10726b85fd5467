-- ===== src/Lib.antt =====
-- Trading OS: the parts that decide whether an order is sent, and what happens to it.
--
-- The program routes every order through one door. Before an order is sized, the kill switch must
-- allow trading and the portfolio guard must let the entry pass; after it is sent, a state machine
-- follows it, and an exit manager guards the position.
--
-- - Routing (src/core/order_router.py, src/core/broker_payloads.py). Request: orders, payloads and what
--   the world answers. Dispatch: `_dispatch` and the audit. Router: `route_order`, one function for
--   each of its steps. Posts, Cleared, Door, Sends, Settled and Overfilled hold proofs.
-- - Orders (src/core/order_state_machine.py). Record: `OrderState`, the table `_LEGAL`, `OrderRecord`
--   and `_transition`. Methods: the methods of `OrderStateMachine` on one record (`on_ack`, `on_fill`,
--   `reconcile_unknown` and so on). Machine: `create`, `retry_as_new`, `open_exposure`, and runs of
--   calls. Trail, Legality, Fills, LateFills and Exposure hold proofs.
-- - KillSwitch (src/core/kill_switch.py). Switch: the flags, `kill_all`, `unlock`, and
--   `check_auto_triggers`; orders and positions that a broker lists carry their ids. Halting, Keeps
--   and Sweep hold proofs.
-- - Exits (src/exits/exit_manager.py). Position: `ManagedPosition`, the configuration, and the adapter
--   as a function that answers each call after those made before, or raises. Moves: `_ratchet_stop`,
--   `_take_partial`, `_exit`. Bars: `on_bar` step by step, and runs of calls. Manager: `attach`, the
--   snapshots and `naked_positions`. Ladder, SafeMoves, NeverWiden, Leaving and Restart hold proofs.
-- - Guards. Budget (src/core/budget_manager.py), Session (src/ops/session_guard.py), Prop
--   (src/ops/prop_rules.py), Heat (src/risk/portfolio_heat.py), and Stack, which asks them in turn
--   (src/core/guard_stack.py). BudgetFence, SessionLatch, PropLimits, HeatLimits and StackOrder hold
--   proofs.
-- - Sizing (src/core/position_sizer.py). Sizer: `calculate_position_size` step by step. Margin
--   (src/core/margin_checker.py): `check_india` and `check_mt5`. Caps and MarginClosed hold proofs.
-- - Paper. Costs (src/core/transaction_cost_model.py); Broker and Desk (src/core/paper_broker.py):
--   `_fill`, then the operations. Tradebook, Replay and Ticks hold proofs.
-- - Shock (src/intel/anomaly_guard.py). Window: `_TickWindow`. Guard: detection, the cool-off and the
--   actions. Reflex and Cooloff hold proofs.
-- - Audit (src/risk/pre_trade_gate.py, src/ops/persistence.py). Chain: `AuditLog`. Gate: `PreTradeGate`.
--   Stored: the log in a file. Intact, Tampered and Reopened hold proofs. `json` and `hashlib` are
--   parameters.
-- - Bars (src/data/bar_aggregator.py). Aggregator: `BarAggregator`. Grouping holds proofs.
-- - Reconcile (src/ops/eod_reconciler.py). Report: `reconcile`. Agreement holds proofs.
-- - Stops (src/exits/adapters). Adapters: the two brokers' stop adapters and the composite. Legs holds
--   proofs.
-- - Clock (src/ops/market_clock.py). Sessions: `MarketClock`; dates end with 9999-12-31. NextOpen
--   holds proofs.
-- - Float: Python's `float` as an interface. A type of numbers comes with a place in the order of the
--   doubles, with NaN, and with the operations; Float/Laws has what the proofs use of IEEE 754, each
--   law a documented property of rounding; Float/Fixed is a type of decimal numbers that meets the
--   laws and on which the tests run.
-- - Common: shared names, Boolean tests, integers, dicts, methods as state with exceptions, and the
--   relations that all calls of a method respect (Steps).
--
-- A method returns its result, or the exception that it raises, with the state as it then is: what was
-- written before an exception stays written. Texts of reasons, notes and exceptions are constructors
-- that carry the values shown. Awaiting is left out: one call runs to its end before the next. Time,
-- fresh ids, and the answers of brokers, Redis, the disk and callbacks are arguments. All loops are
-- over lists, or over a number of days that the source fixes, so no fuel is used.
--
-- Not modelled: HTTP transport, market data feeds, research and learning, the cockpit, and the
-- scripts.
pub mod Common
pub mod Float
pub mod Orders
pub mod KillSwitch
pub mod Guards
pub mod Exits
pub mod Sizing
pub mod Routing
pub mod Paper
pub mod Shock
pub mod Audit
pub mod Clock
pub mod Bars
pub mod Reconcile
pub mod Stops
