-- ===== src/Lib.antt =====
-- Green Relay is a service that sends and receives SMS through a serial modem. A client authenticates
-- with an API key, its request is rate limited and validated, and the message is put in a database
-- and handed to the modem task. That task owns the serial port: it reconnects, sets the modem up,
-- asks for its status, submits the parts of a message by AT commands, and reads what comes in.
-- Administrators log in to a dashboard with a session cookie. This library models the service's own
-- logic from its Rust source (service/src) and states what makes it correct.
--
-- The files and the code they model:
--   Prelude, Text, HashMap: Rust's integers, lists, results, strings and hash maps, as far as used. A
--     text is the list of its code points; `len` counts UTF-8 bytes, `length` characters.
--   Sms: service/src/sms.rs. Validate has validate_e164, validate_body and check_required_fields,
--     Alphabet the GSM-7 alphabet, Segment both routines that split a body, Ucs2 the hexadecimal
--     UTF-16 codec, Frame the header and the body of AT+CMGS.
--   Health, Models: service/src/health.rs and service/src/models.rs.
--   Config: service/src/config.rs. Keys has the names of the settings, File the YAML file and the
--     environment; Blame, Ranges and Precedence are about errors, ranges and the merging.
--   Db: service/src/db.rs and its schema. Rows is a table with AUTOINCREMENT and the clauses of SQL that
--     the queries use, Db the statements and transactions of sqlx as a state and error monad,
--     Migrate the migrations, and Outbound, Inbound, Keys, Admins and Activity the queries on the
--     tables, with the activity feed of service/src/admin/dashboard.rs.
--   KeyCache: service/src/keycache.rs with `resolve_active_key` of service/src/api/mod.rs and the
--     operations of service/src/admin/keys.rs, which share the cache. Coherent is the invariant of
--     the cache, Revoke is about revocation.
--   Api: service/src/api. Api has the responses and the shared state, Middleware authentication and
--     rate limit, Send the two send routes, Read the routes that only read.
--   Reaper, CreateAdmin: one cycle of `reap_queued_messages`, and `create_admin`, in
--     service/src/lib.rs.
--   Metrics, Events, Logging: service/src/metrics.rs, service/src/events.rs and the records,
--     severities and redaction of service/src/logging.rs.
--   RateLimit: service/src/ratelimit.rs. RateLimit is `decide` on one window, RateLimit.Limiter the
--     limiter over a cache, whose documented laws are the record `MayEvict`.
--   Lockout: the lockout of service/src/auth.rs and of service/src/admin/session.rs, which differ in
--     constants and in the scan; the constants are the record `Policy`. Spec describes a lock without
--     sorting or loops, Scan is about the two scans, Horizon about forgetting old failures, and
--     Tracker is FailureTracker and AdminLoginTracker.
--   Auth: the rest of service/src/auth.rs. SHA-256 and the store of keys are parameters.
--   Admin: service/src/admin/session.rs and service/src/admin/login.rs: Bytes is the comparison in
--     constant time, Cookie the session cookie, Session the store of sessions, Login `perform_login`.
--     The database, the check of a password and the random tokens are parameters.
--   Modem: service/src/modem. Protocol is modem/protocol.rs: Line, Outcome and Codes are about the
--     result of a command, Inbound about +CMGR, Status about the status commands, Backoff about the
--     delays. Io is the serial transport as a state and error monad, Transport is
--     modem/transport.rs, Setup, Send, Inbox and Session are modem/session.rs, Manager is the
--     reconnect loop of modem/mod.rs.
--
-- State is passed from call to call: a tracker, a store of sessions, a window of the rate limit and
-- the world behind the modem's port are arguments and results. An instant is a number of nanoseconds.
-- A port is given by the readings it will make and by which writes fail, so a theorem about every
-- world is about every run.
--
-- Loops are structural, on a list or on a count that the code bounds (the attempts of a send, the
-- three readings of a message). Two loops are on fuel. The short cut for simple ASCII bodies has one
-- unit for each byte, and each round takes a byte at least, so it ends before the fuel does. The loop
-- over the pending indices of a session has one unit for each pending index and for each reading to
-- come, since a new index is read from the port.
--
-- The database is a state: the versions, the tables and the index on the file, the flag of the schema,
-- and the number of statements run. A function says which statement fails, so a theorem about every
-- such function is about every failure of SQLite; a statement that fails changes nothing, and a
-- transaction that fails, at its commit too, is undone. A text in a table that is compared in SQL is
-- compared as text. The clock is an argument, and so are the print and the parser of times, of which a
-- theorem assumes that they are inverse where it needs it. Requests are sequences of operations on the
-- state; that two requests may interleave is stated where it matters, in KeyCache.Revoke. Ids and
-- counts of rows are unbounded, and the counters of the metrics wrap at 64 bits.
--
-- Not modelled: the byte buffer under SerialPortTransport and the handle that feeds a session, which
-- are plumbing of the asynchronous runtime; the lengths of timeouts; the status snapshot of a lost
-- port; the opening of the database file; when the cache of windows evicts (50000 keys, an hour idle),
-- in place of which any eviction is allowed; the capacity of the cache of keys and of the event channel;
-- the stream of events, the OpenAPI document, the routes and pages of the dashboard; what is only
-- logged, the set-up of logging, the program's entry and static files, which are input and output only.
pub mod Prelude
pub mod Text
pub mod HashMap
pub mod Models
pub mod Logging
pub mod Config
pub mod CreateAdmin
pub mod Db
pub mod Metrics
pub mod Events
pub mod KeyCache
pub mod Api
pub mod Reaper
pub mod Sms
pub mod Health
pub mod RateLimit
pub mod Lockout
pub mod Auth
pub mod Admin
pub mod Modem
