-- ===== src/Lib.antt =====
-- XanhTab is a remote browser: a daemon on a device lets one paired client start a browser session,
-- steer it, change the way out to the network, and burn the session, which leaves nothing behind. A
-- helper that runs as root changes the firewall and the routes for it.
--
-- The parts, and the files that model them:
--
-- - src/session.rs: Session. State has the data, and the world that operations act on; Lifecycle is
--   `start`, `burn` and `force_burn`; Switch is `switch_egress` with its rollback; Control is
--   `navigate` and the settings; Requests makes runs of them.
-- - src/auth.rs: Auth. State, Pairing (`rotate_pairing`, `exchange_pairing` and what revokes), Access
--   (`authenticate`, tickets, `validate_context`), Requests (runs).
-- - src/lib.rs: App. `AppState`, which joins both managers under its lifecycle lock; Requests has
--   runs of the whole system from the start of the daemon in src/main.rs.
-- - src/api.rs: Api. The guards stand in Api itself; Handlers and Serve are the HTTP handlers and the
--   router, over the system of App; Sockets is who may open a WebSocket and what the events' socket
--   sends, Relay the signaling relay, Connected both sockets whole; Calls lists the calls of
--   the managers that a request makes, and Steps, Operations and Runs join it with the handlers.
-- - src/config.rs: Config, its records with their defaults; Validate is `Config::validate`.
-- - src/netd.rs and src/bin/xanhtab-netd.rs: Netd. Rules and Plans are what is written to the
--   firewall and which commands run; Daemon is `transition` and what it calls; Handle is a request to
--   netd, Service its parts, Startup its `main`, and Client the control plane's side of the socket.
-- - src/egress.rs: Egress. Proxy addresses and secret files, and the WireGuard configurations.
-- - src/bin/xanhtab-browser.rs: Browser, the process that shows the pages, with its history;
--   Arguments has those of GStreamer, Bridge its `main` and its standard input. src/browser.rs:
--   Browser.Backend, with the helper's `handle`.
-- - src/blocklist.rs and src/bin/xanhtab-blocklist.rs: Blocklist. Lookup stands in Blocklist itself,
--   Compile reads and checks hosts files, Files writes them, Tool is the command line.
-- - src/remote_config.rs: RemoteConfig, and Documents for bookmarks and sources. src/main.rs: Daemon.
--   src/metrics.rs: Metrics.
-- - src/model.rs: Model. src/error.rs: Errors. The tests on paths of
--   src/config.rs and src/session.rs: Paths.
-- - Prelude, Text and Fallible are shared: the libraries' names, `str` as a list of code points, and
--   `anyhow::Result`. Samples has a device for the modules named Examples, which hold the examples.
--
-- How the code is modelled. An operation is a function of the state to its result and the new state,
-- also where it fails. The backends, the file system, the clocks and the generators answer as a
-- record says (Session.State.Env, Netd.Daemon.Host) or by an argument; an answer may differ at every
-- tick. The order of calls is the order of the log. The lifecycle lock makes the operations of
-- `AppState` exclude each other, so runs are lists; calls that do not take the lock are events of
-- their own between them. That a setting is changed while an operation waits for a backend is not
-- modelled: outside `Active` every setting is refused, and `navigate`, which waits in `Active`, writes
-- none of the settings. Sums of machine integers are written with
-- their wrap or saturation; `Instant` and `Duration` are unbounded nanoseconds.
--
-- Bounds and fuel: grouping the manual code takes as many rounds as there are characters, and printing
-- a `u32` ten digits; all else is structural recursion.
--
-- Parameters: blake3, base64, base32, the url crate, the fst crate, JSON, `f32`, and the printers and
-- parsers of IP addresses. `nft -f` is taken to load a script whole or not at all.
--
-- Not modelled: JSON, cookies' text and the files of the web client (src/api.rs), TLS and the
-- command line of the daemon (src/main.rs), the loops of the sockets (src/netd.rs, src/browser.rs
-- and the helpers), the dry runs of the helpers, the cancellation of netd's transition at its
-- deadline, the broadcast channel (src/events.rs), a failure of netd to wait for a command that has
-- taken effect (src/bin/xanhtab-netd.rs), the versions of the build (src/metrics.rs), and the web
-- client, which are input and output or other languages.
pub mod Api
pub mod App
pub mod Auth
pub mod Blocklist
pub mod Browser
pub mod Config
pub mod Daemon
pub mod Egress
pub mod Errors
pub mod Fallible
pub mod Metrics
pub mod Model
pub mod Netd
pub mod Paths
pub mod Prelude
pub mod RemoteConfig
pub mod Samples
pub mod Session
pub mod Text
