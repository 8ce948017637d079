-- ===== src/Filesys.antt =====
-- The file system under filesys/: the directory, the file headers, and the operations that keep the
-- two consistent with the bitmap of free sectors.
pub mod Directory
pub mod Header
pub mod System
pub mod OpenFile
mod Tests
