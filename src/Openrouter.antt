-- ===== src/Openrouter.antt =====
-- llm/openrouter: the OpenRouter client's decoder of a streamed answer.
pub mod Wire
pub mod Assembler
pub mod Content
pub mod Stream
pub mod Failures
pub mod Request
