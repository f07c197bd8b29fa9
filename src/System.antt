-- ===== src/System.antt =====
-- The helpers of linux/libsrc/sysipc.cpp that compute: INI files and numbers as text.
pub mod Chars
pub mod Profile
pub mod Itoa
mod Examples
mod WriteExamples
