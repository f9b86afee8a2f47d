-- ===== src/SerdeAt.antt =====
-- serde_at: AT command strings and Rust data.
pub mod Ser
pub mod De
pub mod Deserializer
pub mod Digits
pub mod Numbers
pub mod Signed
pub mod HexStr
pub mod LengthDelimited
pub mod RoundTrip
mod Tests
