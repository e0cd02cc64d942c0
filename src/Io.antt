-- ===== src/Io.antt =====
-- nebari/src/io: the files that the library writes and reads.
pub mod Memory
