-- ===== src/Gateway.antt =====
-- pkg/gateway: the client sessions, the manager that expires them, and the gateway's index of the
-- sessions of a user.
pub mod Session
pub mod Manager
pub mod Index
pub mod Messages
