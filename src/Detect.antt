-- ===== src/Detect.antt =====
-- SYSDEPS/sd-os.c, sd-arch.c, sd-cctype.c and sd-sysinfo.h: the programs that print the constant
-- for the system, the processor and the compiler.
pub mod Rows
pub mod Os
pub mod Arch
pub mod CcType
pub mod Sysinfo
pub mod Programs
pub mod Constants
