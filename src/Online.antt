-- ===== src/Online.antt =====
-- internal/online: who is on which node.
pub mod Useron
pub mod EmptyNode
pub mod Presence
pub mod FirstFree
mod Tests
