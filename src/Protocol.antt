-- ===== src/Protocol.antt =====
-- pkg/protocol: the internal message format, service discovery, load balancing and routing.
pub mod Message
pub mod Discovery
pub mod Balancer
pub mod Router
pub mod Converter
pub mod Handlers
