-- ===== src/Llm.antt =====
-- llm/: the provider-agnostic types and helpers.
pub mod Types
pub mod Collect
pub mod Levenshtein
pub mod Vocabulary
