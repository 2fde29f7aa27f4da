-- ===== src/Comm.antt =====
-- internal/comm: the streams between the program and a caller's terminal.
pub mod Telnet
pub mod AnsiScreen
