-- ===== src/Memfs/Remove.antt =====
-- A file of memfs that is unlinked.
