-- ===== src/Profiling.antt =====
-- tool/src/profile.c: the profile session. Profiling/Sampling is the loop that polls the device and
-- reads samples; what is read and printed is in Reader and Sample.
pub mod Counts
pub mod Start
pub mod Sampling
pub mod Tests
