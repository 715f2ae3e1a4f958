-- ===== src/Lib.antt =====
-- Verification of the core of nowhere-agent, a multi-user agent platform in Go.
--
-- A user talks to an agent in a session. Each run of the agent sends the session's messages to a
-- model, executes the tools that the model calls, and stores what happened. Before a request the
-- context management repairs the conversation and compresses it; the login and one-time code
-- throttlers stand in front of the accounts; the session stores keep the sessions, runs, events,
-- steps, usage, pending interactions and messages, and a broker carries the frames of a run to the
-- attached clients. A runtime starts, ends and cancels the runs of a session, a policy decides which
-- tools may run, a limiter smooths the requests, and a scheduler starts the jobs of the platform.
-- This library models these parts.
--
-- Base          Booleans, lists, integers with a sign, maps with text keys, the order on texts.
-- Provider      internal/provider/types.go: roles, blocks and messages, which Context and
--               Session.Messages share.
-- Agent         internal/agent. Types is the data of loop.go and middleware.go and of
--               internal/toolruntime; Emit is the emitter and the context; Tools is dispatch,
--               interactionGate, ToolExecutor and recordToolResults; Stream is consume and
--               realAttempt; Loop is the configuration, the chains and the guards, Loop.Texts the
--               texts and Loop.Run the body of Run with its ends. A run emits frames into a log,
--               and a context that is read is asked of the surroundings. Loop.Invariant says what
--               an invariant of the loop has to stand, and the files after it prove that it holds;
--               Builtin is the middlewares of middleware.go that come with the loop.
-- Context       internal/contextmgmt without truncate.go, which Session.Fold.Commit has. Pairing
--               is EnsurePairing of pairing.go; Rounds is groupRounds and the three functions of
--               rounds.go that drop a round; Tokens is the estimates and Compress the rest of
--               compress.go, with CompressWithCache and shrinkToBudget. Their children hold the
--               proofs.
-- Identity      internal/identity. Windows is the pruned maps of times; Throttle is
--               LoginThrottler of throttle.go; Otp is OTPThrottler of otpthrottle.go, with
--               Otp.Sending for the requests for codes of phonehttp.go.
-- Session       internal/session. Types is the data of types.go, accounting.go, approval.go and
--               batch.go; Store is the sessions, runs and watermarks of MemStore in memstore.go;
--               Ledger is its steps, usage and events; Gate is the interactions and suspended
--               batches of MemStore in approval.go and batch.go; Messages is MemMessageStore of
--               memmessagestore.go; Fold is FoldBatch of fold.go and the handlers of
--               interaction.go, with Fold.Commit for the commit of a decided batch; Recovery is the
--               search for the batch that a run left decided and not folded; Runtime is StartRun,
--               CompleteRunForRun and CancelRun of runtime.go, whose steps interleave with one
--               another, with restarts and with failures of the store; Broker is memBroker of
--               streambroker.go, with Broker.Log for what it promises.
-- Permission    internal/permission: the policy, the clamp of a setting to a decision, and the gates
--               that ask it before a tool runs.
-- Scheduler     internal/scheduler: the jobs, which of them are in flight, and what a tick starts.
-- RateLimit     internal/quota/ratelimit.go: the limiter of requests with its buckets and their sweeps.
-- ClientAddress internal/trustedproxy: which address a request is taken to come from.
--
-- A function keeps its name in snake_case (CheckVerify is check_verify), a method takes the state
-- as first argument and returns it with its result, and a loop is a function by itself. The mutex
-- that a method holds makes it one step. The clock and uuid.NewString are arguments. A pointer that
-- two maps of a store share is the key into one of them.
--
-- The loop works on the messages that Context repairs and drops, and Fold reads the batch that the
-- loop assembled and runs the tools through the same executor. What the loop's hooks, middlewares,
-- tools, gates, emitter and provider do are functions of the model. The gates of Permission stand
-- before the tools of Agent, and the runs of Runtime are those that Recovery searches.
--
-- Parameters stand for what is not of the repository or not modelled: the summarizer of the
-- compression, the operations on float64, strings.ToLower, strings.TrimSpace and strings.Contains,
-- what ClientAddress uses of the packages net, netip and strings, and the limiter of
-- golang.org/x/time/rate. A value of a tool's input is given by what json.Marshal makes of it.
-- sort.Slice is an insertion sort, since the code relies on nothing but an ordered rearrangement,
-- and a range over a map goes in the order of insertion.
--
-- Bounds: token counts, lengths and times are natural numbers, far below the range of int; the
-- counts of the usage are 64-bit words and wrap around. The fuel of group_rounds is the number of
-- messages, as each round takes at least one. The fuel of shrink_loop is the length of the view,
-- twice over, as each step drops a round or exchanges the summary for fewer messages. Both are
-- proved to be enough.
--
-- Overlapping requests are modelled where the code makes calls under separate locks:
-- Identity.Otp.Sending has AllowSend and RecordSend as two steps, and Session.Runtime each call of the
-- store. FoldBatch takes no lock in the in-memory stores and is one step here, so that two folds that
-- overlap are not covered. Texts are cut at bytes, as in Go; that a cut inside a character gives the
-- bytes up to it is taken on trust.
--
-- The fuel of Loop.Run's iterations is MaxIterations itself. The frames that a tool pushes while it
-- runs are left out, and so is the result that a middleware may return next to an error.
--
-- Not modelled: the Postgres and Redis stores, whose meaning is SQL and the network; the HTTP
-- handlers, providers, sandbox, tools and commands, which are I/O; CompressMW around the modelled
-- compression, the images, the rest of the runtime (AppendEvent) and of the registry (Submit,
-- execute), the monthly budgets, the schedules that users define and the webhooks, which come next.
pub mod Base
pub mod Provider
pub mod Context
pub mod Agent
pub mod Identity
pub mod Session
pub mod Permission
pub mod ClientAddress
pub mod RateLimit
pub mod Scheduler
