-- ===== src/Tests.antt =====
-- Runs of the model on concrete data.
pub mod Data
pub mod Witnesses
pub mod Orders
pub mod Domains
pub mod Sync
pub mod Names
mod Config
mod Blocklist
mod Netlink
mod Proxy
mod Peers
mod Recovery
mod Leases
mod Updater
mod Cache
mod Compiling
