-- ===== src/Lib.antt =====
-- A verification library for grid-bot-validation, a grid trading bot for perpetual futures and the
-- tools that validate it. It models the bot's strategy code and the guards around its orders.
--
-- The parts and how they interact. A strategy engine (packages/gridcore) holds a grid of price levels.
-- A ticker event makes it build or rebuild the grid and compare the live orders with the levels; it
-- answers with intents, to place or to cancel an order. An execution event makes the grid mark the
-- filled level and rebalance. The bot (apps/gridbot) sizes each placement by the multipliers of the
-- risk rules, which look at both positions of a pair, and sends it through the safety caps; what fails
-- goes to a retry queue, and calls of the exchange's API are paced by a rate limiter. A runner for
-- each strategy keeps track of the orders and guards each placement against duplicates, against the
-- balance and against the size of the position that it closes. An executor makes the calls, counts
-- auth errors and enters a cooldown, which a periodic sweep ends; a breaker drops closes that the
-- exchange keeps refusing. A backtest puts a simulated exchange, with an order book and a rule for
-- fills, in the place of the real one; it can also replay recorded executions. The margin formulas
-- look up a tier of risk limits.
--
-- Files, with what each models:
--   Grid: class Grid of packages/gridcore/src/gridcore/grid.py. Grid/Level has the levels and the
--     state, Grid/Build build_grid, Grid/Check bounds, wait_center and is_grid_correct,
--     Grid/Check/Restore restore_grid, Grid/Update update_grid, _assign_sides and __center_grid.
--   Engine: class GridEngine of packages/gridcore/src/gridcore/engine.py. Engine/Types has the events,
--     intents and the state (events.py, intents.py, config.py), Engine/Survivors the grouping of live
--     orders by price and _select_survivor, Engine/Place _place_grid_orders and _create_place_intent,
--     Engine/Handle __init__, on_event and the handlers. Engine/Orders, Engine/Cancels,
--     Engine/Stamped, Engine/Track and Engine/Pending have the proofs.
--   Position: classes RiskConfig and Position of packages/gridcore/src/gridcore/position.py;
--     Position/Cycle is the update of both positions in apps/gridbot/src/gridbot/runner.py.
--   SafetyCaps: class SafetyCaps of apps/gridbot/src/gridbot/safety_caps.py, and what execute_place of
--     apps/gridbot/src/gridbot/executor.py does with the rate window.
--   RateLimiter: class RateLimiter of packages/bybit_adapter/src/bybit_adapter/rate_limiter.py.
--   RetryQueue: classes RetryItem and RetryQueue of apps/gridbot/src/gridbot/retry_queue.py.
--   Executor: class IntentExecutor of apps/gridbot/src/gridbot/executor.py, with make_order_link_id of
--     apps/gridbot/src/gridbot/order_link_id.py; Executor/Errors has the classifiers of error texts.
--     Executor/Links and Executor/Cooldown have the proofs.
--   AuthCooldown: class AuthCooldownManager of apps/gridbot/src/gridbot/auth_cooldown_manager.py, and
--     the callback by which apps/gridbot/src/gridbot/orchestrator.py joins it to the executors.
--     AuthCooldown/Sweep and AuthCooldown/Tracked have the proofs.
--   Runner: the order path of class StrategyRunner of apps/gridbot/src/gridbot/runner.py.
--     Runner/Orders has the tracked orders (get_limit_orders, _find_tracked_order), Runner/Guard what
--     a placement has to pass (_evaluate_safety_caps, _refresh_position_size_from_rest,
--     _is_good_to_place), Runner/Admit and Runner/Place _execute_place_intent, Runner/Batch
--     _execute_generated_intents, _execute_cancel_intent, retry_dispatch_place and on_order_update,
--     Runner/Executions _seen_exec_id. Runner/Distinct, Runner/Closing, Runner/Retries and
--     Runner/Latch have the proofs.
--   TruncateBreaker: class TruncateBreaker of apps/gridbot/src/gridbot/truncate_breaker.py;
--     TruncateBreaker/Storm asks it as apps/gridbot/src/gridbot/runner.py does.
--   Pnl: the formulas and tables of packages/gridcore/src/gridcore/pnl.py, Pnl/Validator its class
--     _TierValidator and parse_risk_limit_tiers. Pnl/Bisect, Pnl/Parsed, Pnl/Table and Pnl/Finds have
--     the proofs.
--   Backtest: the simulated exchange of apps/backtest/src/backtest. Backtest/Fills and
--     Backtest/Follower are the two classes of fill_simulator.py, Backtest/Orders and
--     Backtest/Orders/Recorded the class of order_manager.py, Backtest/Orders/Spec the abstract order
--     book that it refines. Backtest/Positions is position_tracker.py, Backtest/Positions/Ledger the
--     books of a position.
--   Prelude, Text, Dict, Float, Decimal, Outcome and Samples are shared: the libraries' names, Python
--     strings (with extract_client_order_prefix of packages/gridcore/src/gridcore/intents.py), dicts,
--     floats and decimals, exceptions as values, and concrete grids for the tests.
--
-- How the code is read. A method that changes its object is a function from a state to a result and a
-- state; the state comes back after a raise too. A Python float is an element of a type with the
-- operations that the code uses (record Floats), other than NaN; theorems about order have as a
-- hypothesis that the comparisons are a total order (record IsOrdered), and the one theorem about
-- rounding names its laws. A fixed-point type of six decimals satisfies them, and the tests run on it.
-- A Decimal that the code converts to a float is written as that float; other decimals are elements of
-- a type with the operations that the code uses (record Decimals), and the theorems need no more of
-- them than their order, but for the books of a position, which are about exact sums, differences and
-- products (record IsExact), and the reduce-only orders of a position, which are about exact sums
-- (record IsAdditive). In the runner, the executor, the margin formulas and the backtest a string is
-- the list of its characters' codes; in the other parts identifiers are naturals. Times are naturals,
-- in the unit that each file names, and calls of the clock are arguments. SHA-256 is a parameter of
-- the engine's state; the exchange's client is one of the executor, and the clocks, the REST client
-- and the wallet are the runner's (record Outside), whose optional callbacks are taken to be there.
-- Log lines are left out. Loops are structural recursion, but for the binary search and the digits of
-- a number: their fuel is the length of the list and one more than the number, and the theorems about
-- them show that it is enough.
--
-- Not modelled: a cooldown that clears a retry queue in the middle of the queue's own loop; of the
-- runner the detection of SAME ORDER errors (its latch is a field), the position updates but for the
-- multipliers, chase orders and the orders found at start; order sizes, which are a parameter of the
-- runner, the orchestrator's timers, the session of a backtest and the comparison of trades; further
-- the exchange client, databases, files, threads and command lines, which are input and output; and
-- bbu_reference, a copy of an earlier bot.
pub mod Prelude
pub mod Text
pub mod Dict
pub mod Decimal
pub mod Float
pub mod Outcome
pub mod Samples
pub mod Grid
pub mod SafetyCaps
pub mod Engine
pub mod Position
pub mod RateLimiter
pub mod RetryQueue
pub mod Backtest
pub mod Pnl
pub mod TruncateBreaker
pub mod Executor
pub mod AuthCooldown
pub mod Runner
