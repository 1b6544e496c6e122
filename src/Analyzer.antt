-- ===== src/Analyzer.antt =====
-- The analyzer, analyzer/src/analyzer: it reads the recorded trace offline.
pub mod Treemap
pub mod Soft
pub mod States
pub mod Segments
pub mod Cascade
pub mod Main
pub mod Files
