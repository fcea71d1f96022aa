-- ===== src/Engine.antt =====
-- src/engine and src/faculty: executing work with the hooks of a faculty.
pub mod Control
pub mod Faculty
pub mod Focus
pub mod Host
