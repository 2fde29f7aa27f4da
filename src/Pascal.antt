-- ===== src/Pascal.antt =====
-- internal/pascal: code page 437 text, Pascal strings, and the packed record reader and writer
-- that every file format of the program goes through.
pub mod Cp437
pub mod Text
pub mod Buf
mod Tests
