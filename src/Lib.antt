-- ===== src/Lib.antt =====
-- clear-evmi-plugin materializes the decoded logs of the Clear protocol into Postgres. The indexer
-- (EVMI) hands over one log at a time, at least once each; the plugin handles a log in one database
-- transaction and reports success or an error, after which the log is delivered again.
--
-- The parts, and the files that model them (paths from the repository's root):
--   * Texts, addresses, arguments: db.go and the small helpers of handlers.go are Text, Address, Args,
--     Number; array arguments in both renderings are ArrayArg, over the scanner of Json.
--   * Kinds of contracts: db.go, registry.go (`String`, `kindFromString`) are Kind.
--   * Tables: schema.go is Db with Db/Rows; a table is an association list behind its primary key
--     (Table), a column that may be NULL an Option. Its two views are Valuation, on Decimal.
--     The script that `Init` runs on every start is Schema, statement by statement, with what it does
--     to the tables, columns, indexes and views that a database has; Schema/Script is the whole of it,
--     and Schema/Versions lists, apart from it, the columns of its versions.
--   * The call: Exec is a Go function that makes statements in a transaction and may return an error,
--     as a state monad over a World; Exec/Ensures are pre- and postconditions of such calls.
--     Exec/Succeeds is about calls that return a result where the server serves, Exec/Spends about the
--     answers of the server that calls use up.
--   * main.go `NewLogEvent` is Delivery; dispatch.go is Dispatch; registry.go is Registry. main.go
--     `pluginConfig`, `ConfigSchema` and `Init` are Start.
--   * handlers.go: `handleTransfer` is Transfer, the upserts and balances (with db.go) Balances, the
--     daily value points Snapshot, the reserve events Reserve with Reserve/Events and Reserve/Assets (what
--     they move: Reserve/Flows, Reserve/Balanced, Reserve/BalancedEvents, Reserve/SwapFlows; the swaps
--     they count: Reserve/SwapCount),
--     the oracle Oracle (an invalidated price: Oracle/Invalidated), the setters Patch, the
--     treasury fee Iou, the factory Factory, the directory of tokens Token, Curve pools Curve.
--   * curve.go and the discovery of a pool are Curve/Resolve and Curve/Deployed, host.go is
--     Curve/Host.
--   * Quiet is about all handlers but Transfer: what they leave alone. Records is about what is written
--     once and for all: rows that only accumulate, known metadata, positions, keys of contracts.
--   * Dispatch/Keeps, Dispatch/Run, Dispatch/Kept, Dispatch/Effects and Dispatch/Redelivery are about
--     sequences of deliveries to the whole exporter, Dispatch/Prices about sequences of events that
--     are dispatched to the oracle.
--   * Examples has runs at concrete inputs.
--
-- How they interact: `new_log_event` begins a transaction, claims the log's id in
-- clear_processed_events, looks up the contract's kind in the registry (and classifies the ABI name
-- on first sight), and calls `dispatch`, which picks the handler by kind and event name. A handler
-- reads and writes the tables; those that discover contracts and tokens also write the registry, and
-- ask the chain and the host.
--
-- What is outside the repository is a parameter: the reading of numbers and `trunc(a / b)` of Postgres
-- (record Postgres, with laws of reading: `0` is zero, the empty text is refused, an unsigned number may
-- have a minus sign, which negates it, and what has one may be without), the answers of the chain's endpoint and of the host (Rpc), and the reading of the
-- configuration and the opening of connections (Services in Start). A World has the list of
-- the server's answers to come, so a statement, a begin or a commit may fail at any place, and a
-- commit may be carried out though its answer is lost. A statement that fails spoils the
-- transaction. The registry, the cached ABI id and the host's log sources are not rolled back.
--
-- Bounds: no model runs on fuel; every recursion is on a list of the input. Amounts are unbounded
-- integers, as NUMERIC of scale 0 holds them. Block numbers, chain ids and log indexes are natural
-- numbers below 2^63, which the driver accepts. Texts are ASCII. A query with LIMIT 1 takes the row
-- that was inserted first. The indexer delivers on one thread, so the locks are left out.
--
-- Snapshots fail where they divide by the supply -1 of a base reserve and one. The catalog of a World is
-- what a start finds; its rows are read by the columns that the script of schema.go leaves.
--
-- Not modelled: the ranges of BIGINT, INT and SMALLINT (a number that the server refuses there is an
-- answer `failed`); answers of the chain and of the host that change during a run of deliveries; a
-- view or an index of the database with the name of one of the script's tables; Name, Close and main
-- (a constant and process glue), logging, `\u` escapes in JSON strings, the text of the embedded ABI.
pub mod Prelude
pub mod Text
pub mod Address
pub mod Kind
pub mod Args
pub mod Postgres
pub mod Table
pub mod Db
pub mod Rpc
pub mod Exec
pub mod Decimal
pub mod Event
pub mod Valuation
pub mod Snapshot
pub mod Registry
pub mod Balances
pub mod Transfer
pub mod Delivery
pub mod Json
pub mod ArrayArg
pub mod Number
pub mod Token
pub mod Reserve
pub mod Patch
pub mod Oracle
pub mod Iou
pub mod Factory
pub mod Curve
pub mod Records
pub mod Quiet
pub mod Dispatch
pub mod Schema
pub mod Start
mod Examples
