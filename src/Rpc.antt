-- ===== src/Rpc.antt =====
-- pkg/rpc: the service registry and the instance selectors.
pub mod Instance
pub mod Selector
pub mod Registry
pub mod Balancer
