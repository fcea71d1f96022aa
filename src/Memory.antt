-- ===== src/Memory.antt =====
-- src/model/memory.rs and src/memory: memories with an embedding, stored and searched by the server.
pub mod Entry
pub mod Store
