-- ===== src/Lib.antt =====
-- VerifAI: whether an AI endpoint serves the model that it claims to serve. This library models the
-- logic that decides: where a run may connect, how a body is read and kept within its limit, which
-- probes a run sends, how the signals of a run become an assessment, a confidence and a headline, what
-- is hidden of a key, and how the daemon keeps a check that the page follows.
--
-- The parts, and where they are:
-- Net: packages/core/src/net. Net.Address is address.ts: Parse has the parsers of literals, Ranges
--   the classes and the two tables, Classify `classifyAddress`; Canonical, Embedded and Blocks hold
--   what is proved of them. Net.Guard is guard.ts, which takes the strictest class of the addresses
--   that a name resolves to; Net.TargetUrl is target-url.ts, which calls both on a typed URL.
--   Its child Hostname says which hostnames are address literals.
-- Transport.Sse: packages/core/src/transport/sse.ts. Fields is what a line does to the state, Scan
--   the search for line ends across chunks, Decoder `push` and `finish`. The variables that the
--   closure of `createSseDecoder` keeps are the records State and Decoder.
-- Types: packages/core/src/types and the types of the runner and the probes that the rest reads.
-- Scoring: packages/core/src/scoring. Aggregate is aggregate.ts, Dispersion dispersion.ts, Ceiling
--   ceiling.ts, Assess assess.ts, and Verdict is `verdictFor` of types/assessment.ts. `assess` calls
--   all of them: `aggregate` on the signals, `epsilonOf` on the draws, `ceilingFor` on what ran, and
--   `verdictFor` last.
-- Planner: packages/core/src/planner. Profiles is profiles.ts, Shuffle shuffle.ts, and Plan plan.ts:
--   `planProbes` checks its options, then considers each probe of the catalogue against the budget;
--   Probe is what it reads of a probe.
-- Runner.Session: packages/core/src/runner/session.ts. The variables of `createSession` are the record
--   State; the transport and the abort signal are parameters, by the number of the request and of the
--   look, and so are what `retryWaitMs` and `namesMissingModel` read of a response.
-- Runner.Dilution: packages/core/src/runner/dilution.ts. `draw_all` is the loop of `drawAll`, `tally`
--   what a draw does to it. What the session did for a draw is a parameter, `attempts`.
-- Runner.Run: packages/core/src/runner/run.ts. `run_from` is the loop of `runProbes`, Progress the
--   variables it keeps, and `skip_reason_for` what a thrown error is recorded as. What a turn of a
--   probe did is a parameter, `turns`, by the index of the probe.
-- Credentials: packages/core/src/credentials. ApiKey is api-key.ts, Redact redact.ts; Redact.Forms
--   holds the escapes of JSON and URLs, Reference the description place by place that the redactor
--   meets, and Merge, Replace, Windows, Lengths, Compile, Knows, Covers, Shifted and
--   Hides what is proved.
-- Transport.Headers: packages/core/src/transport/headers.ts.
-- Daemon.Checks: packages/cli/src/daemon/checks.ts, the store of a daemon's checks. Checks has its
--   operations, Calls any sequence of calls, timers and runs, Invariant what holds of a store, Account
--   what becomes of a check; Types.Events has what the store, the runner and the page share of
--   runner/types.ts and service/contract.ts.
-- Web.Poll: packages/web/src/lib/poll.ts. `apply_status` is the reducer of a status, `poll_check` the
--   loop, over rounds: a round is what the looks at the signal and the two requests came to. Sync joins
--   it to the daemon's `status`.
-- Node.Body: packages/node/src/body.ts. `add_part` is that of the collector, `on_event` what the
--   handlers of the stream and of the decoder do, `read_body` any sequence of these events.
-- Node.Resolver: packages/node/src/resolver.ts, the lookup that is pinned to the checked addresses.
-- Node.Transport: packages/node/src/transport.ts up to the exchange: `prepare`, `send_request` and
--   `wire_headers`. Node.Exchange is its `exchange`, with what packages/core/src/transport/types.ts
--   makes of a failure: ExchangeState has its variables, `on_net_event` its handlers and the `stop` of
--   `createStop`, and `exchange_on` runs any sequence of events. Node.Decimal is `String` of a count.
-- Common: tests, lists, integers and texts over the native numbers.
--
-- How the code is modelled. A name is the source's in snake case; a member called unknown is named
-- after its axis (unresolved, undetermined, unplaced, untraced). A text is a list of code units. A
-- function that returns undefined returns an Option; one that throws returns a Result, or `none`
-- where one error is possible. A loop is structural recursion on what it runs through; the bisection
-- takes the 200 steps that the source allows. The loop of `drawAll` is recursion on fuel, one more
-- than the planned draws and the allowance: each pass leaves fewer of them, so the fuel lasts.
--
-- Numbers. The scoring computes with doubles. It is modelled over an interface, Scoring.Numbers, of
-- the operations that the source calls, with laws of order that doubles keep under rounding as long
-- as nothing overflows; no law says that an operation is exact. A ratio that a signal brings may also
-- be an infinity or NaN, `not_finite`. Thousandths is an instance on whole
-- thousandths, at which the definitions run.
--
-- Parameters, since the platform provides them: `new URL`, `isIP`, the two TextDecoders of a stream, and
-- what a resolver answers. A number has one more step of fuel to print than it needs.
--
-- Bounds: an answer of the daemon has 500 events, the page keeps 400, and gives up past 5 transient
-- failures in a row. Polling is structural recursion on the rounds that are given.
--
-- Not modelled: the probes, the protocol adapters, the rendering of a report, the command line apart
-- from the store of checks, the web interface apart from the polling, and the tables of fingerprints. What a decoder of a body does is an event.
-- The checks of `checkSignal` that a typed signal passes by its type are left out of `aggregate`.
pub mod Common
pub mod Credentials
pub mod Net
pub mod Transport
pub mod Types
pub mod Scoring
pub mod Planner
pub mod Runner
pub mod Node
pub mod Daemon
pub mod Web
