-- ===== src/Loader.antt =====
-- lua-load.adb and lua-load.ads: the Ada library that reads Lua tables.
pub mod Binding
pub mod State
pub mod Values
pub mod Tables
pub mod Names
pub mod Stack
pub mod Fields
pub mod Components
pub mod Visit
pub mod Iterate
