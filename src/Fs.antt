-- ===== src/Fs.antt =====
-- The directory fs/: the file system in memory.
pub mod Ramfs
