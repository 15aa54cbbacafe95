-- ===== src/Engine.antt =====
-- tools/conformance/engine: the state that the rules are judged over.
pub mod IdWindow
pub mod State
pub mod Dedup
pub mod Book
pub mod Fields
pub mod MbpBook
pub mod Oracle
pub mod Emit
pub mod Mbp
pub mod Mbo
pub mod Definition
pub mod Tier1
pub mod Examples
