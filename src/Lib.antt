-- ===== src/Lib.antt =====
-- ProofGate: an LLM gateway. A request enters a pipeline of stages, is resolved to a route, planned
-- over targets and executed with failover; what goes out and comes back is guarded and charged.
--
-- Api (internal/api): the chat types, their texts and token estimates, the errors, and the assembler
-- of streamed chunks with its inverse `ChunksFromResponse`.
-- Router (internal/router): `Breaker` is the circuit breakers, `Capabilities` the capability filter,
-- `Route` target names, `Resolve`, `Order` and `Plan`, `Execute` the failover loop
-- and `Hedge` the race of two attempts.
-- Guard (internal/guard): `Detect` is the detectors of personal data over the matches of their
-- regular expressions, `Redact` writes placeholders over them, and `Restorer` is the
-- `StreamRestorer` that writes the originals back.
-- Pipeline (internal/pipeline): the stages' hooks and the order in which they run.
-- Budget (internal/budget): `Pricing` is the oracle of costs, `Ledger` the ledger and its scripts,
-- `Stage` the pipeline's stage over any ledger.
-- AgentRun (internal/agentrun): the store that limits an agent's run, and `Stage`, the pipeline's
-- stage over it.
-- Health (internal/health): `Stats` is the averages of a target and `Tracker` the tracker that marks
-- slow and failing targets.
-- SmartRoute (internal/smartroute, `planFor` of internal/server): the choice between a cheap and a strong
-- target and its place in the plan.
-- Auth (internal/auth): `Lru`, the cache of API keys, and `Keys`, the lookup of a key through two of
-- them, the check of a request and the evictions.
-- Admin (internal/adminauth): `Store` is the interface of the session store and `Memory` the store
-- in memory, `Session` the sessions, `Login` the login with its lockouts, `Roles` the
-- permissions and `Gate` the checks before a handler.
-- Proof (internal/proof): `Leader`, the election of the replica that measures quality.
-- Mcp (internal/mcpproxy): which tools and methods a key may use.
-- RateLimit (internal/ratelimit): `Buckets` is the token buckets and their scripts, `Stage` the stage
-- that charges an estimate and settles it.
-- Sse (internal/sse): `Reader` is the parser of server-sent events and `Writer` their printer.
-- Redis: the commands that the scripts call, as an interface with their documented laws.
-- Base: what the modules share.
--
-- A Go function is a definition of the same name in snake case; a method takes its receiver, and
-- where it changes the receiver it returns the new one. Errors are values. Locks are left out: each
-- method that holds one is a single step. Strings are lists of bytes; `float64` is abstract; an
-- `int` that the code never lets overflow is a number, and the one shift that can overflow wraps. The
-- numbers of the rate limiter's Lua scripts are exact, without the rounding of doubles.
-- Loops are structural recursion over the list or the rounds left. Five run on fuel: the cut into
-- chunks and the scan of the restorer on one more than the bytes left, of which a round takes at
-- least one; `Next` on two more than the bytes left, since a round that goes on has read a byte;
-- the digits of a number on one more than the number, of which a round takes one off; and the
-- eviction on the length of the list, of which a round takes one element.
--
-- Not modelled: HTTP, JSON, SQL, cryptography, metrics and configuration, which are input and output
-- around this core; and the guard's stage, the response cache, gossip and the measurements of the
-- proof engine.
pub mod Admin
pub mod AgentRun
pub mod Api
pub mod Auth
pub mod Base
pub mod Budget
pub mod Guard
pub mod Health
pub mod Mcp
pub mod Pipeline
pub mod Proof
pub mod RateLimit
pub mod Redis
pub mod Router
pub mod SmartRoute
pub mod Sse
