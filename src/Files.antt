-- ===== src/Files.antt =====
-- internal/files: the file areas, who may use them, and the tagged files.
pub mod Tag
pub mod Access
mod Tests
