-- ===== src/Lib.antt =====
-- A verification of the core of QuantLab, a laboratory for research on equity strategies.
--
-- The program. A back test (quantlab/backtest/engine.py) drives a clock of exchange sessions
-- (quantlab/backtest/calendar.py, clock.py, events.py, ordering.py). At the end of a month the scores
-- of a factor snapshot (quantlab/factors/contracts.py) select names
-- (quantlab/portfolio/selection.py), which get weights (weighting.py) and form a target portfolio
-- (construction.py, quantlab/domain/portfolio.py); the risk engine (risk.py) applies constraints
-- (constraints.py) to it until they change nothing, and the planner turns it into orders
-- (quantlab/portfolio/orders.py). At the next open the simulated broker
-- (quantlab/backtest/broker.py) fills them against bars with slippage, fees and a volume cap; fills
-- and corporate actions go through the accounting engine to a cash and a position ledger. Paper trading repeats this with a mock adapter,
-- whose books can be rebuilt from fills and reconciled. Factors read prices and
-- fundamentals through a facade (quantlab/data/pit_facade.py) that answers as of a moment, from stores
-- of bars, corporate actions, statements and vintages. Research is guarded by purged
-- walk-forward splits, partitions, a holdout that opens once, a trial ledger, hard gates and a
-- verdict. Jobs are created once for each key, and artifacts are stored under their hash.
--
-- The files.
--   Prelude         shared names, lists, integers, results, dictionaries, tables, sorting
--   Decimal         Python's `Decimal` in its default context: 28 digits, rounding half to even
--   Time            Python's `date` and `datetime`
--   Domain          quantlab/domain: Identity (identity.py), Orders (orders.py and
--                   backtest/order_state.py), Market (market.py, corporate_actions.py),
--                   Portfolio (portfolio.py)
--   Backtest        quantlab/backtest: Calendar (calendar.py), Ledger (ledger.py), Accounting
--                   (accounting.py, corporate_actions.py, marking.py), Costs (costs.py,
--                   participation.py, execution.py), Broker (broker.py), Clock (events.py,
--                   ordering.py, clock.py), Engine (engine.py, the specification of result.py)
--   Data            quantlab/data: Actions and Adjust (corporate_actions.py), Bars (market_bars.py),
--                   Facade (pit_facade.py), Fundamentals (fundamentals.py), Macro (macro.py),
--                   Quality (quality.py), Symbols (instruments.py); Query is the query that
--                   Fundamentals and Macro share
--   Universe        quantlab/universe
--   Factors         the values and snapshots of quantlab/factors/contracts.py
--   Portfolio       quantlab/portfolio: Selection (selection.py), Weighting (weighting.py),
--                   Construction (construction.py), Risk (risk.py), Constraints (constraints.py),
--                   Planner (orders.py)
--   Paper           quantlab/paper: Adapter (contracts.py, adapter.py), Recovery (recovery.py),
--                   Reconciliation (breaks.py, reconciliation.py), Simulation (simulation.py)
--   Validation      quantlab/validation: Gates (gates.py, verdicts.py), Holdout (holdout.py),
--                   Trials (trials.py), Partitions (partitions.py)
--   Jobs            quantlab/infrastructure/jobs.py
--   Artifacts       quantlab/infrastructure/artifacts.py
--   WalkForward     quantlab/ml/splits.py, quantlab/ml/walk_forward.py
--   Tests           runs at concrete inputs
-- The definitions carry the names of the source; `new_order` and the like are the checks of a
-- constructor. The modules under a component hold its theorems.
--
-- Conventions. An object that the code mutates is a record that a method takes last and returns. An
-- exception is an error of `Result`; where a method changes its object before it raises, the
-- model returns the error together with the object. A UUID that names an instrument is a natural
-- number in the same order; a text is its list of code points; a moment is its count of microseconds
-- in UTC, with the offset it is written with and a mark that tells whether it carries a zone, from
-- which come what `replace(tzinfo=UTC)` makes of it and the order of the texts of `isoformat`. The
-- wall clock, fresh identifiers and hashes are arguments. A factor's score, a floating-point number,
-- is of a type that is a parameter, with the test that one score is higher than another; nothing is
-- assumed of that test.
-- A table of the database is its list of rows in the order of their identifiers, and a query is a
-- filter and a stable sort of it; where a query compares the texts of moments, so does the model.
-- Checks of the type of a Python value are left to the types.
--
-- Fuel. The search for the next session looks at four days, which is enough, since an exchange
-- holiday beside a weekend closes three at most. The walk-forward loop has two rounds more than there
-- are sessions, which is enough for every step of at least one. `get_sessions` and
-- the weekdays of the paper simulation have a round for each day of the range and one more. The
-- iterations of the risk engine are the source's own bound.
--
-- Not modelled: two exceptions of the standard library, which the model's functions do not raise:
-- that of `Decimal.quantize` for a result of more than 28 digits, and that of a date after the year
-- 9999; the daily returns and the metrics of a back test, weights by inverse volatility, factor
-- computations, models and statistics, all in floating point; ingestion and providers of data,
-- research campaigns, databases, the application services and the interfaces.
pub mod Prelude
pub mod Decimal
pub mod Time
pub mod Domain
pub mod Data
pub mod Factors
pub mod Universe
pub mod Backtest
pub mod Portfolio
pub mod Paper
pub mod Validation
pub mod Jobs
pub mod Artifacts
pub mod WalkForward
mod Tests
