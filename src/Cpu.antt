-- ===== src/Cpu.antt =====
-- SYSDEPS/sd-cpuidx86.c: the program that tells features and cache sizes of the processor.
pub mod Tables
pub mod Caches
pub mod Vendors
pub mod Program
pub mod Told
pub mod Answers
pub mod Search
