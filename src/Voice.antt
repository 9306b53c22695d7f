-- ===== src/Voice.antt =====
-- voice/: the spoken answer of a turn.
pub mod Sentences
pub mod Speaker
