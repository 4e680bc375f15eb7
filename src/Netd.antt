-- ===== src/Netd.antt =====
-- src/netd.rs and src/bin/xanhtab-netd.rs: the helper that runs as root and changes the firewall
-- and the routes. Rules are the firewall's rules, Plans the commands, Daemon what runs them.
pub mod Rules
pub mod Plans
pub mod Daemon
pub mod FailClosed
pub mod Transition
pub mod Service
pub mod Client
pub mod Handle
pub mod Applied
pub mod Startup
mod Examples
