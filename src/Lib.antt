-- ===== src/Lib.antt =====
-- wgrift: a manager of WireGuard interfaces and peers, with a SQLite store, a web server and
-- configuration files for wg-quick.
--
-- The parts of the program, and the modules that model them:
-- - Confgen: internal/confgen. `Generate` has the three writers (confgen.go), `Parse` the parser
--   (parse.go) as a state machine over lines. `Lines`, `Peers` and `Hooks` say what one written
--   line, peer block or hook does to the parser; `RoundTrip`, `Client`, `Safety` and `Comments`
--   build on them.
-- - Models: internal/models/models.go. A time is a count of nanoseconds from Go's zero time.
-- - Store: internal/store. `Store.Db` has the tables of store/migrations as lists of rows in the
--   order of insertion; `Interfaces`, `Peers`, `Users`, `Sessions`, `Settings`, `Logs` and
--   `TunnelIps` have a statement and an action for each method of SQLiteStore. A statement is a
--   function from the tables to the tables or a violated constraint (`insert_peer`), and the action
--   around it sets identifiers and times and wraps errors as the method does (`create_peer`).
-- - Wg: internal/wg/manager.go. `Sync` has SyncInterface and SyncAll, `Manager` the operations on
--   interfaces and peers, `Import` ImportInterface, `Status` GetStatus, `ClientConf` GenerateConfig,
--   and `AllowedIps` the lists of addresses.
-- - Auth: internal/auth/auth.go. The session durations of the configuration are fields of `Service`.
-- - Oidc: internal/auth/oidc.go. `Oidc` has Reload, ListProviders and AuthorizationURL, `Claims`
--   matchesClaim and the roles, `Callback` HandleCallback. The map of resolved providers and the
--   channel `ready` are the world's `oidc`.
-- - Poller: internal/server/poller.go. A map is a list of pairs, the alerts are kept in the order in
--   which they were started.
-- - Server: internal/server. `Response` has respond.go, and `Users`, `Peers`, `Email`, `Interfaces`,
--   `Running`, `Settings`, `Logs`, `Dashboard`, `Auth` and `Oidc` a function for each handler
--   (handleAddPeer is `handle_add_peer`), `Smtp` smtp.go, and `Routes` routes.go and middleware.go.
-- - Web: the computations of the front end in ui/web. `Addresses` has extractHostIP, isIPInUse and
--   nextAvailableIP (peer_form.go), `Defaults` nextInterfaceDefaults (interfaces.go), and `Texts` the
--   helpers of common.go and interface_detail.go. The search for a port is given one round more than
--   there are interfaces, which `Suggested` shows to be enough; in WebAssembly an int has 64 bits.
-- - Config: internal/config/config.go, with the environment, the files and `yaml.Unmarshal` as
--   parameters. What handlers read of it are fields of `Server`.
-- - Net: what the code uses of Go's package net: ParseIP, ParseCIDR with its network, IP.String.
-- - App: the methods that talk to the database, the clock, the kernel and the cryptographic
--   libraries are functions of an environment and a world. The environment answers each call by the
--   current tick, and may let any call fail; the world holds the tables and the calls made so far.
--   What was written before an error stays written. `App.Keeps` has one rule for each way to build
--   an action for invariants of the tables, `App.Reads` for actions that only read, `App.Yields` for
--   what an action returns, and `App.Total` for actions that always return.
-- - Base: numbers, texts as lists of code points, lists and results.
--
-- A request to a protected route goes through `api`: `auth_required` validates the session of the
-- cookie, `csrf_protect` compares its token, and `serve` calls the handler of the route. A handler is
-- an action that returns a response; `answering` is a call whose error ends it with an error
-- response. A handler is given its body as readJSON decoded it, or the decoder's error.
--
-- The manager calls the store and the kernel, and writes files with the writers of Confgen; the
-- import reads them with its parser.
--
-- Loops are structural recursions on lists, so no fuel is needed. An `int` is an integer whose range
-- is a hypothesis (`InRange`) where it matters: reading a number back, `strconv.Atoi` refuses one
-- out of range.
--
-- Parameters, in `App.Env`: the clock, UUIDs, the database driver's failures, the foreign key pragma
-- of the pooled connection that a statement runs on, encryption by age (internal/crypto), WireGuard
-- keys, random tokens, bcrypt, the kernel behind NetManager, the discovery, exchange and verifier of
-- an OIDC provider, mail addresses and the mail server, files, the QR encoder, and the table of
-- small letters.
--
-- Not modelled: opening and migrating the database, the pages of the web front end, the decoding of
-- JSON, listening and static files, the text of mails and the alerts of internal/server/alert.go,
-- demo data and build scripts. The poller and the handlers run one at a time.
-- Invalid UTF-8 is outside the model, as a text is a list of code points.
pub mod Base
pub mod Models
pub mod App
pub mod Net
pub mod Store
pub mod Confgen
pub mod Wg
pub mod Auth
pub mod Oidc
pub mod Poller
pub mod Server
pub mod Config
pub mod Web
pub mod Tests
