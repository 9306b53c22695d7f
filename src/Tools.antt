-- ===== src/Tools.antt =====
-- tools/: handlers and the registry that dispatches to them.
pub mod Handler
pub mod Registry
