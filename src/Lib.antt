-- ===== src/Lib.antt =====
-- The ledger of parameters and the golden suite contract of TruthMetal.
--
-- The program is a server that keeps versioned parameters. A request comes in by the Connect
-- handlers of internal/api, which call the service of internal/ledger; the service reads and
-- writes the store (internal/store), lets internal/consensus validate a new version and promote
-- it, and keeps canonical versions in Redis by internal/cache. The records are those of
-- internal/model. Apart from the server, internal/goldensuite validates a directory with the
-- manifest, the quality gates and the cases of a golden suite.
--
-- Base and its children: names of the libraries, tests on native numbers, lists, results,
-- integers and a pigeonhole lemma. Exec: methods of a service as functions from a state to an
-- outcome (a value, an error or a panic) and a state; what was written before an error stays
-- written. Exec/Keeps, Exec/Triples, Exec/Settles and Exec/Leads: rules for what such a method
-- keeps, returns, and keeps of what it returns.
--
-- GoldenSuite and its children (internal/goldensuite/contract.go): Contract has the types and
-- constants, Errors the errors, Sets `hasDuplicates`, Hex `sha256Hex` and `isLowerHex`, Manifest
-- `validateManifest` and `validateSource`, Gates `validateQualityGates`, Cases `validateCaseSet`,
-- Dir `ValidateDir` and `decodeFile`. The last four have a Spec, which says what is accepted as
-- records without any reference to the order of the tests, and Laws. Go ranges over a map in any
-- order: the order of the keys is an argument. A fractional threshold is modelled by its
-- comparisons with 0 and 1. Libs has the parameters for SHA-256, URLs, base64 and Unicode.
--
-- Model (internal/model/parameter.go), with Model/States on its states. Store
-- (internal/store/store.go), the interface; Store/Db the effect of the writes of
-- internal/store/postgres.go, Store/Contract what the ledger relies on: a write that returns has
-- its effect, one that fails has it or not; Store/Writable that no write fails but for the unique
-- index, or that none fails; Store/Kept what writes keep, for any preorder, Store/Typed that the
-- value of a canonical version has its type, and Store/Replay and Store/Telling when the states
-- agree with the events. Store/Postgres (internal/store/postgres.go) writes its SQL as data of
-- Store/Sql for a pool, and reads rows by Store/Postgres/Scan; Store/Sql/Tables and
-- Store/Sql/Meaning say what such SQL does to the two tables of migrations/, as a hypothesis on
-- the pool, which may fail at any call; from it, Store/Postgres/Refinement derives the contract.
-- Consensus (internal/consensus): `validateValueType` and `Evaluate`; Consensus/Lifecycle is
-- about its verdicts, Consensus/Refusal about a promotion that the unique index refuses. Cache
-- (internal/cache/redis.go). Ledger (internal/ledger/ledger.go): `Submit` is `propose`, which is
-- `create_version` behind the lookup, then `Evaluate`, then `finish`; `Get`, `GetByID`, `Revoke`
-- and `QueryAudit` are `get`, `get_by_id`, `revoke` and `query_audit`. The Go channel of events
-- is a list that `broadcast` appends to below its capacity of 256; Ledger/Unblocked is about a
-- `Submit` at a full channel. Ledger/Requests runs a list of requests one after another;
-- Ledger/Reads and Ledger/Footprint say what each request keeps that the store's reads and writes
-- keep, Consensus/Footprint the same of `Evaluate`. Ledger/Proposal is about `Submit` up to the
-- consensus, Ledger/ReadBack about a `Get` behind it, Ledger/Typed about the values that it lets
-- become canonical, Ledger/Telling and Consensus/Telling about states and events where requests
-- run one after another. Ledger/Overlap has a `Get` that a `Revoke` overtakes. In Ledger/Threads
-- any number of calls of `Submit` overlap: each is a thread with a step for its lookup, what it
-- creates, `Evaluate` and the rest, and whole requests are served between the steps. Api
-- (internal/api/handler.go): the unary handlers, with the messages of
-- proto/truthmetal/v1/truthmetal.proto as records; Api/Watch lets any number of streams take
-- turns with the requests, until an error of `Send` ends them, which Api/Stopped is about;
-- Api/NotFound is about the codes of the unary handlers' errors. Memory: stores, one with a
-- primary key, a pool, caches and a clock that meet the contracts.
--
-- Server (cmd/server/main.go): the configuration, the migrations and `run`; a deferred call is
-- made behind the rest of its function, whatever the outcome. Server/Logging: the interceptor,
-- for a call behind it. Server/Http: the health check, what the mux serves, and the goroutine
-- that listens. ValidateCommand (cmd/validate-golden-suite/main.go): `main`. Rpc
-- (gen/truthmetal/v1/truthmetalv1connect/truthmetal.connect.go): the generated client and the
-- generated handler, which routes a request by its path, over the library connect as a parameter
-- and without their options; Rpc/EndToEnd has a client call the handlers of internal/api. What
-- `Watch` makes of its stream is an argument there.
--
-- A version number is a 64-bit integer that wraps around. Times are native numbers, 0 the zero
-- time. No definition has fuel: each loop is a recursion on its list. Contexts and their
-- cancellation are left out: an error that they cause is one of the errors a call may answer, and
-- a stream whose context is done makes no more rounds.
--
-- Not modelled: the SQL syntax of internal/store/postgres.go, of which the parts stand in data;
-- the constraints of the tables but for the failures that they cause; UUIDs spelled otherwise
-- than uuid.NewString does, since ids are compared as text; times below the microseconds that the
-- database keeps; the signals and the log of cmd/server, but for the interceptor's lines; the
-- options of connect; the migrations and the generated code of the messages. Requests that
-- overlap in time are interleaved at the four steps of a `Submit` and at the lookup of a `Get`,
-- not at every statement: in particular, what `Evaluate` does, and what `Revoke` does, is not
-- interrupted there.
pub mod Base
pub mod GoldenSuite
pub mod Exec
pub mod Model
pub mod Store
pub mod Consensus
pub mod Cache
pub mod Ledger
pub mod Api
pub mod Memory
pub mod ValidateCommand
pub mod Rpc
pub mod Server
