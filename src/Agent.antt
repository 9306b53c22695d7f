-- ===== src/Agent.antt =====
-- agent/: the built-in tools, the session and its run loop.
pub mod Policy
pub mod Lines
pub mod Utf8
pub mod Replace
pub mod ReadFile
pub mod WriteFile
pub mod EditFile
pub mod Listing
pub mod Glob
pub mod Grep
pub mod VfsTools
pub mod History
pub mod Locker
pub mod Session
pub mod Event
pub mod Drain
pub mod Run
