-- ===== src/Mail.antt =====
-- internal/mail: message text.
pub mod Wrap
pub mod Jam
mod Tests
