-- ===== src/Install.antt =====
-- The installer library: install-core.c, install-posix.c, install-win32.c and install.h.
pub mod Types
pub mod Os
pub mod Machine
pub mod Posix
pub mod Windows
pub mod Files
pub mod FileTypes
pub mod Copy
pub mod Check
pub mod Rmkdir
pub mod Names
pub mod Translate
pub mod Operators
pub mod Verify
pub mod Deinstall
pub mod Api
pub mod Views
pub mod DryRun
