-- ===== src/Mail/Jam.antt =====
-- internal/mail/jam.go and internal/mail/jam_rw.go: a JAM message base on disk.
pub mod Message
pub mod Store
pub mod Change
pub mod Header
pub mod BaseNum
pub mod Lines
pub mod Kept
pub mod Text
pub mod Stored
pub mod Append
pub mod Search
pub mod Intact
pub mod Found
pub mod Others
pub mod Grow
pub mod LastRead
pub mod Marked
pub mod Mark
pub mod Subs
mod Tests
