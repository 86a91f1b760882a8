-- ===== src/Lib.antt =====
-- Botroost runs chat endpoints on nodes: an API server keeps the desired state and hands out
-- commands, an agent on each node carries them out and reports back, a web console shows it. This
-- library models the parts that decide something.
--
-- The parts, and how they interact:
--
-- * Journal (packages/agent-journal/src/index.ts). The agent records, for each command, a receipt,
--   the effects it has on the runtime and a result, as lines of a file that only grows, so that
--   after a crash it knows what it has done. `apply` is Journal.apply; canonical payload texts and
--   `equal` are Journal/Canonical; `append`, its write loop and the three record methods are
--   Journal/Append; the replay in `open` is Journal/Open; `serialize`, `close` and the flags are
--   Journal/Queue. The file is a list of bytes. What writers and `sync` do is an argument (Writer),
--   short writes and exceptions included.
-- * Reconciler (packages/reconciler/src/index.ts). The reducer of an endpoint's events: desired
--   states, connections, results. The whole file is modelled, one function for each kind of event.
-- * RuntimeProxy (apps/api/src/runtime-proxy.ts). The console's way to the web UI of a runtime. The
--   ticket store and `resolveTarget` are in RuntimeProxy; `bridgeHttp`, up to the call of the
--   runtime, is in RuntimeProxy/Bridge; the headers in both directions are in RuntimeProxy/Headers
--   and RuntimeProxy/Response; the address check `runtimeDialHost` is in RuntimeProxy/DialHost,
--   with hosts of digits and dots in RuntimeProxy/DialHost/Numbers and /Blocks. The database's
--   `authorize` and `route` are arguments (Options), and so is the cookie plugin (Plugin), which
--   makes `request.cookies` of the Cookie header.
-- * SecurityPolicy (apps/api/src/security-policy.ts). The limiter of failed logins.
-- * Traffic (apps/agent/src/traffic.ts). The accumulator that reads a runtime's log lines and the
--   summary that the agent reports; the parsers are arguments, as they are of the class.
-- * Agent (apps/agent/src/index.ts). DurableFakeAgent.pollOnce, which carries out one claimed command.
--   Agent has the calls it makes, Agent/Poll the function, Agent/Runtimes the choice of a runtime and
--   the heartbeat of observations; Agent/Order is the rule on its calls, and Agent/Journaled puts it
--   together with the journal.
-- * Runtime (apps/agent/src/index.ts, apps/agent/src/llbot-runtime.ts and
--   apps/agent/src/snowluma-runtime.ts). `applySerial` of the three container runtimes, each action of
--   it. Runtime has the types and the calls; Runtime/Common the steps that the three share;
--   Runtime/Napcat, with Runtime/NapcatDriver and Runtime/NapcatActions, is NapCatRuntime;
--   Runtime/Llbot and Runtime/LlbotActions are LLBotRuntime; Runtime/Snowluma, with
--   Runtime/SnowlumaActions and Runtime/SnowlumaCreate, is SnowLumaRuntime. The OneBot WebSocket
--   lists are mapped in Runtime/Websockets, Runtime/LlbotWebsockets and Runtime/SnowlumaWebsockets.
-- * Programs is what `async` functions become in the two: a tree of the calls they await, with a
--   branch for each answer and each exception. Programs/Runs has rules on all runs of a tree.
-- * FakeRuntime (apps/agent/src/index.ts). The runtime that the agent uses without containers.
-- * ResourceUsage (apps/agent/src/resource-usage.ts). The sampler of the containers' processor and
--   memory use. A call has the times at which it reads the clock: for the test of the interval, for
--   `lastAttempt`, and after the reader has answered. Calls are one after another; those that share
--   one attempt are not modelled. ResourceUsage/Freshness is on what is reported, and
--   ResourceUsage/Throttle on when attempts are made.
--
-- Json is the type of payloads. Prelude holds what the parts share: tests, lists, the order of
-- JavaScript strings (Prelude/CodeUnits), `Map` (Prelude/Maps) and `sort` by a key
-- (Prelude/Sorting).
--
-- How code becomes a definition: an object is a record, a method takes the record and returns the
-- new one, an exception is `err` of a Result, a constructor of its own type, or `throw` of a Program
-- with the text of the message. Texts are cut by UTF-16 code units as `slice` does (Prelude/CodeUnits),
-- but half of a surrogate pair becomes U+FFFD, which is what its encoding gives. Time is an argument,
-- in milliseconds, and so is a random token. Numbers that the program keeps non-negative are ℕ; a
-- subtraction in a comparison is written as an addition on the other side.
--
-- Fuel: the write loop of `append` recurses on fuel and is given the length of the record. Each
-- round that goes on has written a byte at least, so that this is enough. The loop over the slices of
-- observations is given as many rounds as there are observations. All other loops are structural;
-- `waitForQr` counts its attempts down.
--
-- What is assumed: the lines of the journal are written and read by a Codec, since
-- JSON.stringify and JSON.parse are the platform's. Where a theorem needs it, its hypothesis `Codes`
-- says for one event that its line has no newline inside, is not empty and decodes to the event
-- again. The tests on error objects are parameters (Errors), and so are the tests and the rounding of JSON
-- numbers (Numbers), and paths and redaction (Options).
--
-- What is not modelled: locks and permissions of files, `fsync` of directories, clients of Docker,
-- Kubernetes and the database, HTTP itself, message schemas, and the pages of the console. Timers and
-- the queue that makes a runtime's commands one after the other are not modelled: a field that they
-- set is read by a call. Paths and addresses that cannot be made are not modelled either, nor what
-- `snapshot` reads from a runtime. Of the
-- runtime proxy the rewriting of bodies, cookies and redirects is left
-- out, and of the traffic accumulator the parsers of log lines.
pub mod Agent
pub mod FakeRuntime
pub mod Journal
pub mod Json
pub mod Prelude
pub mod Programs
pub mod Reconciler
pub mod ResourceUsage
pub mod Runtime
pub mod RuntimeProxy
pub mod SecurityPolicy
pub mod Traffic
