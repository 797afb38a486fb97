-- ===== src/Helpers.antt =====
-- Modules of framework/helpers.
pub mod Analyzer
pub mod Memory
pub mod AccessLog
pub mod Segmentation
pub mod Ports
