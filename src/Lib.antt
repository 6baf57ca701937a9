-- ===== src/Lib.antt =====
-- CodeDuel is the backend of 1v1 programming duels: a Go program whose roles (gateway, match,
-- judge, reaper) share PostgreSQL and Redis. This library models the part that decides a duel:
-- players queue and are paired, matches are created, submissions are admitted, dispatched, executed
-- and settled, abandoned work is recovered, and overdue matches end.
--
-- How the parts stand together:
-- - Db: the tables and triggers of internal/infrastructure/migrations. Db.Invariant says what the
--   tables satisfy, Db.Statements that each statement of a handler keeps it.
-- - World: what the handlers act on (what is durable, what the open transaction sees, the judge
--   stream, the messages sent) and the monad that they are written in. An Env says for each call
--   site whether the call takes effect, fails, or takes effect without an answer. World.Keeps has
--   the rules for invariants, World.Ends those for what holds at the end of a run.
-- - Redisx: internal/redisx, the judge stream (judge_queue.go), keys (keys.go), queue members
--   (member.go), the Lua scripts of the matchmaking queue (Redisx.Scripts) and their calls
--   (Redisx.Queue, queue.go). SortedSet, QueueOk and its children have the invariant of the queue,
--   Fifo, Pairing and Spared what enqueuing and pairing do.
-- - Proto: the messages of internal/proto/messages.go, and the decoding of frames
--   (Proto.Inbound).
-- - Match: createMatch of internal/match/create.go, and the matchmaker's step of service.go
--   (Match.Service), whose Frame says what a step may rest on.
-- - Gateway: enqueueForMatch of internal/gateway/matchmaking.go, the answer to a frame
--   (Gateway.Inbound, handleInbound of conn.go), whose calls are arguments, the registry of
--   connections (Gateway.Registry, registry.go), whose methods are steps in any order, and access
--   tokens (Gateway.Tokens, auth.go).
-- - Auth: internal/auth/service.go, registration and login.
-- - Config: internal/config/config.go, validation and loading.
-- - Submission: Accept of internal/submission/service.go, and the dispatcher of dispatch.go.
--   Submission.Runs has how its parts end, which Idempotent, Replayed and Outcomes rest on.
-- - Judge: internal/judge, Claim (Judge.Store) and Complete (Judge.Completion) of store.go,
--   result.go (Judge.Outcome), processJob of service.go (Judge.Service), output.go (Judge.Output),
--   executor.go (Judge.Executor), and docker_executor.go: the resources of an attempt
--   (Judge.Sandbox) and Execute (Judge.Docker). Judge.Settled and Judge.Claims.Started say what a
--   completion and a claim leave of the rows.
-- - Reaper: internal/reaper, one tick: leases.go, stream.go, matches.go, events.go. Reaper.Finalized
--   follows the end of a match, Reaper.Scores the best scores that decide it.
-- - Safety: each handler keeps the invariant of the tables. System: the handlers as the steps of
--   one system, its reached states, and what holds of them.
-- - Tests: concrete runs.
--
-- What the model takes as given:
-- - A transaction runs as one step: it holds row or advisory locks on the rows that it decides on,
--   so concurrent handlers take their steps in the order of their transactions. A judge job and a
--   tick of the reaper are also steps transaction by transaction, with any others in between.
--   No row is locked by another transaction where a query says SKIP LOCKED.
-- - Identifiers are numbers and 0 is uuid.Nil; a time is a number of microseconds of the clock that
--   the Env gives for its call site; a duration of createMatch is its number of milliseconds. A
--   count that Go holds in an int is a natural number.
-- - A duration of the configuration is a number of nanoseconds, as time.Duration has it, and the sum
--   that its validation compares wraps around as an int64.
-- - SQL and Redis commands act as their documentation says. A SELECT without an order is in table
--   order, where the code reads at most one row by a key. XAUTOCLAIM finds the entries of the
--   pending list, which Finalize removes together with the entries of the stream.
-- - JSON, UUIDs, UTF-8, strings.TrimSpace, SHA-1 and Redis' cjson are functions of the Env. The
--   executor is an argument of the judge's step; what the Docker daemon answers is an argument of
--   the executor, with the order in which the channels of a run answer.
-- - Redis runs a script as one step. A Lua number holds a score exactly. A field of a queue member
--   that has another type than its text or number counts as absent.
-- - All loops are structural recursion on lists of rows, jobs, events, entries, tests and bytes, so
--   no fuel is needed.
--
-- Not modelled: the gateway's sockets and snapshots, the Kubernetes executor, the options of
-- containers, and the start-up checks of the Docker executor with its removal of stale resources.
-- Start-up, connections, logging and metrics, contexts and their cancellation,
-- and deployment are outside.
pub mod Auth
pub mod Base
pub mod Config
pub mod Db
pub mod Gateway
pub mod Proto
pub mod Redisx
pub mod World
pub mod Submission
pub mod Judge
pub mod Match
pub mod Reaper
pub mod Safety
pub mod System
pub mod Tests
