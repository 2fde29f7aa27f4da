-- ===== src/Cfgrec.antt =====
-- internal/cfgrec: the records of the configuration and user files.
pub mod User
pub mod Areas
pub mod SysInfo
pub mod Protocol
pub mod EleConfig
pub mod TelnetCfg
pub mod Addr
pub mod Flags
pub mod Tests
