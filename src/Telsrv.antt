-- ===== src/Telsrv.antt =====
-- internal/telsrv: the servers that answer callers and give each one a node.
pub mod Pool
pub mod Websocket
mod Tests
