-- ===== src/Key.antt =====
-- dht/key.go: identifiers of nodes and values, and the distance between them.
mod Value
mod Distance
mod Make
pub mod Hex
unfoldable pub use Value.*
unfoldable pub use Distance.*
unfoldable pub use Make.*
