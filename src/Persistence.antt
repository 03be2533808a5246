-- ===== src/Persistence.antt =====
-- The encoding of the store's state as a JSON document (apps/server/app/persistence.py).
pub mod Values
pub mod Encoding
pub mod Decoding
pub mod RoundTrip
mod Tests
