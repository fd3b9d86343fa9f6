-- ===== src/Lib.antt =====
-- tictick-hi: collecting candles from exchanges, serving them, and running strategies on them.
--
-- The parts of the program, how they work together, and where each is modelled:
-- - Data: internal/data. Interval (interval.go and alignTime), Model (model.go), Query
--   (candle_query.go, data_sync_validation.go), Validation (candle_validation.go), Gaps
--   (DetectCandleGapsInRange and candleGapTracker), Aggregate (aggregate.go), Cursor
--   (candle_cursor.go) and Provider (candle_provider.go, candle_provider_aggregation.go,
--   candle_result.go). GetCandles checks the query, reads native candles, checks them and looks for
--   gaps; where they do not answer the query, it reads candles of one minute page by page and
--   aggregates them.
-- - Exchange: internal/exchange/ratelimit.go, the limiters that the exchange clients wait on.
-- - DataSync: internal/datasync, the worker that fetches candles of a claimed task, moves the task's
--   cursor and settles the task. runner.go is in Config, Schedule, Cursor and Runner, runner_fetch.go
--   in Fetch, lease_race.go and the errors of internal/exchange/errors.go in Errors.
-- - Strategy: internal/strategy. Params (NormalizeParams and the readers of parameters) and Signals
--   (the two strategies of runtime.go).
-- - Backtest: internal/backtest/runner.go, `execute`, which fills the intents of a strategy.
--   Its orders and its summary are texts, printed as the code prints them, and its account is exact.
-- - WorkerLease: internal/workerlease/heartbeat.go, the heartbeats that run beside a task's work, as a
--   step relation; a heartbeat and its answer are one step.
-- - Trading: internal/trading, `result` and the two executors.
-- - Audit: the hash chain of audit events in internal/store/postgres. Hashes is the hash of an event,
--   Verification is verifyAuditEventHashRecords of audit_hash_verify.go, Retention and Pruning are
--   audit_retention_store.go, and Recording is RecordAuditEvent of audit_store.go. The two tables are
--   lists of rows, a query is a function of them, and a transaction that fails leaves them alone.
--   A pruning verifies the chain before and after it, and leaves an anchor for the hash that the
--   first event it keeps names. Listing is ListAuditEventPage with the cursors of
--   internal/data/audit.go and the query of internal/web/api/audit.go.
-- - Notification: internal/notification. Runner is one pass of the delivery worker (runner.go) with
--   its throttle and retries, Targets the targets of provider.go and of the email, feishu and telegram
--   providers with both checks of them, Texts the texts and headers of provider_config.go.
-- - MarketSync: internal/marketsync/runner.go, a pass over every exchange, as the list of its calls.
-- - Api: internal/web/api/validation.go. Symbols (validateExchangeSymbol, validateCreateTask) and
--   Trading (trading tasks and backtests); Trading.Running follows an accepted task through the store
--   to Trading. Logins is the limit on failed logins: auth_security.go, handleLogin of auth.go up to
--   the session, and internal/store/postgres/auth_rate_limit_store.go. Requests run side by side, so
--   handleLogin is two steps, up to the question to AuthenticateOperator and from its answer on, and
--   steps of other requests may come between them.
-- - Base: shared names; Base.Rat is internal/decimal over exact fractions.
-- - Scenarios: the theorems at concrete inputs.
-- A function keeps its Go name in snake case; a helper that has no name in Go is named for the
-- part of the function that it stands for. An error is a constructor in place of a message.
--
-- Numbers. Instants are nanoseconds since the Unix epoch, and durations are nanoseconds; both are
-- natural numbers, so a subtraction that would pass the epoch stops there. Counts and limits that
-- are not positive are 0, which is how the code treats them. interval_duration keeps the wrap-around
-- of int64 as a bit pattern below 2 ^ 64, and max_candle_query_span wraps likewise. What uses the
-- duration of an interval is Go's code where that duration is positive, which holds of every text for
-- less than 2 ^ 63 nanoseconds (292 years). Longer texts may wrap to a duration that is negative in
-- Go, used there as such and here as a number of 2 ^ 63 or more, or to 0, where Go's division panics
-- and the one here gives a value.
--
-- Fuel. The page loops of the aggregation run on `limit + 1` rounds, since every round but the last
-- brings at least one candle, whatever the store answers. The other loops are structural: a limiter's wait is a list of rounds, and a fetch counts its attempts down. The walk
-- along a hash chain has one step more than there are records; a walk that is not stopped by a cycle
-- passes different records, so it ends in time. A client of the audit pages has as many steps as there
-- are rows, plus one.
--
-- Parameters. big.Rat.SetString is `set_string`, FloatString `format_decimal`, strings.Compare
-- `text_lt`, the coding of cursors `marshal` and `unmarshal`, the store a function from queries to
-- candles, the repository and the clock of the worker an Environment, float64 the interface Floats,
-- the hash of stable identifiers `stable_id` and random identifiers `new_id`; JSON, SHA-256 and the
-- format of times in audit events are a HashCodec, and net/url and the environment of the process the
-- Outside of Notification. sort.Slice is an insertion sort that keeps the order of equal times.
--
-- Not modelled: the SQL of internal/store but for the audit and login limit tables, the HTTP handlers
-- of internal/web but for logins, the calls of internal/adapter and of the notification providers,
-- cmd/hi, secrets, logging and the frontend. The endless loops of the workers call what is modelled
-- and sleep. Payload maps, tracing fields and log lines are left out of the records, since no
-- decision reads them.
mod Base
pub mod Data
pub mod Exchange
pub mod DataSync
pub mod Strategy
pub mod Backtest
pub mod Trading
pub mod Audit
pub mod Notification
pub mod MarketSync
pub mod Api
pub mod WorkerLease
mod Scenarios
