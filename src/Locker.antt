-- ===== src/Locker.antt =====
-- SYSDEPS/sd-locker.c, sd-locker_posix.c and sd-locker_win32.c: the program that runs a command
-- while it holds a lock on a file, one process of it and, on POSIX, several.
pub mod Calls
pub mod Process
pub mod Processes
pub mod Exclusion
pub mod Ends
pub mod Run
pub mod Command
pub mod Quoting
pub mod Reader
pub mod Windows
pub mod WindowsRun
