-- ===== src/Vfs/Memory/Suite.antt =====
-- The in-memory backend of vfs/memory/storage.go passes the conformance suite of vfs/conformance.go.
