-- ===== src/Tests.antt =====
-- Runs of the model on concrete inputs.
pub mod Cli
pub mod Config
pub mod Control
pub mod Database
pub mod Focus
pub mod Language
pub mod LifeCycle
pub mod Loop
pub mod Memory
pub mod Output
pub mod Overlap
pub mod Queue
pub mod Serving
