-- ===== src/Sessions.antt =====
-- The small socket programs: misce_tests/socket and ipcCode/sockets.
pub mod Calls
pub mod Ledger
mod Samples
pub mod UnixDomain
pub mod Servers
pub mod Clients
