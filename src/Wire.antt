-- ===== src/Wire.antt =====
-- tools/conformance/wire: frames, their decoder, and the builder of test fixtures.
pub mod Header
pub mod MessageType
pub mod Rule
pub mod Decode
pub mod Cursor
pub mod Tiling
pub mod Build
pub mod Conformant
pub mod RoundTrip
pub mod Truncation
pub mod Examples
