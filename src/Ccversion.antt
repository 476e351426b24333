-- ===== src/Ccversion.antt =====
-- SYSDEPS/sd-ccversion.c: the version of the compiler, of the numbers in its macros.
pub mod Compilers
pub mod Decode
pub mod Known
