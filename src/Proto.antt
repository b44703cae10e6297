-- ===== src/Proto.antt =====
-- The package proto: messages, the handshake, and what is agreed on in it.
pub mod Message
pub mod Handshake
pub mod Gets
pub mod Authentic
pub mod Honest
pub mod Capabilities
pub mod HashList
pub mod Sessions
pub mod Opening
pub mod Opened
pub mod Agreed
pub mod Packing
pub mod Client
pub mod Requests
pub mod Bootstrap
