-- ===== src/Lib.antt =====
-- A model of the Go SDK for Polymarket, and theorems about it. A program that uses the SDK makes
-- REST calls through the HTTP client of pkg/transport, which runs each request behind a circuit
-- breaker and a token bucket and repeats what failed for a moment. pkg/clob builds the calls of the
-- order book on it, collects or streams lists page by page, and builds, signs and posts orders, as
-- the trading bot of pkg/bot does with what its scan finds. pkg/clob/ws keeps streams of market and
-- user events over WebSocket connections, counts which assets and markets its streams want, and
-- subscribes them with the server. pkg/execution turns failures and order states into decisions
-- that do not depend on the exchange's words.
--
-- The modules, and the files of the repository that they are about:
--   Transport.CircuitBreaker   pkg/transport/circuitbreaker.go: each critical section under the
--     mutex is a function on the record Breaker (beforeRequest is before_request, and so on), and
--     `run` is any interleaving of them; Calls has Call and CallWithFailurePredicate, where the
--     request may do anything to the breaker before it ends. Invariant, Trips and Probes are about
--     the machine of the three states.
--   Transport.RateLimit        pkg/transport/ratelimit.go: the token bucket; `wait` is the loop of
--     Wait over the wake-ups of its timer. Bounds and Waiting are its theorems.
--   Transport.Client           pkg/transport/transport.go and body.go: Auth builds and signs the
--     requests of doCall, Attempts is its loop, Breaking is Call and the errors that the breaker
--     counts. Headers, Loop, Settles and Counting are the theorems on these, in this order.
--   Execution.Retry            pkg/execution/retry_policy.go: Decide, ComputeBackoff with the
--     wrap-around of an int64, and the classes of errors (Errors) over the chain that errors.Is
--     walks.
--   Execution.Lifecycle        pkg/execution/lifecycle.go: the states and events of an order.
--   Execution.Idempotency      pkg/execution/idempotency.go: the keys and their canonical form.
--   Execution.WsPolicy         pkg/execution/ws_policy.go: reconnects and heartbeats, with the power
--     in floating point as a parameter. Attempts is about the attempts.
--   Execution.Engine           pkg/execution/clob_engine.go and attribution.go, over the CLOB client
--     as a record of functions. Attributed is about its responses.
--   Clob.Pagination            the loops of the All methods (pkg/clob/impl_orders.go and
--     impl_market.go), their queries (Queries), and pkg/clob/stream.go (Stream). Collect, Sends,
--     StreamSteps, Streamed and All are theorems.
--   Clob.Orders                the orders of pkg/clob: the builder of order_builder.go with its
--     setters (Setters), what it asks a client for (Resolve, order_builder_resolve.go), limit orders
--     (Build) and market orders (Market); the typed data (Typed) and the signing (Signing) of both
--     versions of the exchange and the posting (Posting), impl_orders.go; and the payload of a
--     post (Payload, order_payload.go). Their child modules are theorems.
--   Bot                        pkg/bot: the configuration (Config, config.go), the scan of the
--     markets' books (Scan, analyze.go and engine.go), and plans, their risk and their execution by
--     the order builder (Plan, engine.go and risk.go). Their child modules are theorems.
--   Decimal                    the decimal numbers of github.com/shopspring/decimal, which are a
--     parameter: a record of operations (Decimals), and of the laws of them that theorems use
--     (Laws). Fixed is a concrete one, decimals with a number of places, at which both hold.
--   Ws                         pkg/clob/ws: reference counts (Refs), requests (Requests), the
--     client's subscriptions (Client, Client.Apply) and the opening and closing of streams
--     (Client.Streams), with lifecycle.go's reconnect and Close; the filters and buffers of a
--     stream, subscription_manager.go (Buffers); the dispatch of events.go (Events); and the
--     configuration, config.go (Config).
--   Base                       shared: Boolean tests, lists, Go strings as lists of bytes, results
--     of a value or an error, and int64 by its two parts.
-- The modules named Examples hold the theorems at concrete inputs.
--
-- How Go becomes definitions. A method takes and returns the record of its receiver; a critical
-- section is one step, so interleavings of goroutines are lists of steps. A pair of a value and an
-- error is a Result, or an Option of the error where there is no value. Times are nanoseconds on
-- the monotonic clock and arguments of what reads them. Where a select may go either way its choice
-- is an argument: Choice of Stream, Wake of RateLimit, `done` of Client. The network, JSON, HMAC
-- and hashes are parameters: `fetch` of Pagination, World of Client, the environment of Ws. So are
-- the signers, the answers of the exchange (Lookup, Exchange), the printing of numbers and
-- addresses, and the sort of a scan. The order behind a pointer that signing changes is returned by
-- each step as it leaves it.
--
-- Bounds and fuel. The loop of doCall makes four attempts, and is written on the number that is
-- left. The loops over pages have no bound in the code: they run on fuel that counts fetches, and
-- Clob.Pagination.Collect says for which servers there is enough.
-- ComputeBackoff keeps its int64 wrap-around written out. The tokens of the rate limiter are exact
-- multiples of a billionth of a token, so float rounding is left out. Letters and spaces are those
-- of ASCII.
--
-- Not modelled: the REST calls that only build a path and decode an answer, the read and ping
-- loops of the WebSocket clients and the decoding of their messages, the signatures of
-- pkg/auth, and the packages rtds, ctf, bridge, data, gamma and logger, which are thin clients or
-- separate from the parts above.
pub mod Base
pub mod Bot
pub mod Clob
pub mod Decimal
pub mod Execution
pub mod Transport
pub mod Ws
