-- ===== src/Report.antt =====
-- tools/conformance/report: what becomes of the findings.
pub mod Sink
pub mod Examples
