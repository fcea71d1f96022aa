-- ===== src/Work.antt =====
-- src/model/work.rs: work items, their life cycle and the builder of new ones.
pub mod State
pub mod Item
