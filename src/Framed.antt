-- ===== src/Framed.antt =====
-- internal/adapters/framed: the length-prefixed frames (codec.go).
pub mod Codec
pub mod Response
pub mod Limits
pub mod RoundTrip
pub mod Writing
