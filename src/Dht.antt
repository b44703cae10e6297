-- ===== src/Dht.antt =====
-- Package dht.
pub mod Address
pub mod Table
pub mod Entry
pub mod NetDb
