-- ===== src/Reader/Sync.antt =====
-- read_samples takes off the buffer what smon_rb_write put on it.
pub mod Memory
pub mod Scan
pub mod Loop
pub mod Reads
