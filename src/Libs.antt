-- ===== src/Libs.antt =====
-- The C library that the kernel and its programs share: ucore_OS/libs.
pub mod Memory
pub mod Strings
pub mod Numbers
pub mod Tests
