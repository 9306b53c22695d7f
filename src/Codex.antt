-- ===== src/Codex.antt =====
-- llm/codex: the client of the Codex backend.
pub mod Stream
pub mod Request
