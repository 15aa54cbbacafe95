-- ===== src/Core.antt =====
-- tools/conformance/core: the vocabulary of findings, and the registry of rules.
pub mod Finding
pub mod Catalog
pub mod Registry
pub mod Lookup
