-- ===== src/Detect/Programs.antt =====
-- SYSDEPS/sd-os.c, sd-arch.c and sd-cctype.c: the main functions, as what they print.
use coreland_lua_ada_load.Base.{Bytes, Bool, ◌++◌, codes}
use coreland_lua_ada_load.Detect.Rows.{detect}
use coreland_lua_ada_load.Detect.Os.{os_rows}
use coreland_lua_ada_load.Detect.Arch.{arch_rows}
use coreland_lua_ada_load.Detect.CcType.{cc_type_rows}

abbrev pub unknown : Bytes
unknown = codes "UNKNOWN"

module _ (defined : Bytes → Bool) where
  unfoldable pub os_main : Bytes
  unfolding os_rows
  os_main = (codes "SD_SYSINFO_OS_" ++ detect defined os_rows unknown) ++ codes "\n"

  unfoldable pub arch_main : Bytes
  unfolding arch_rows
  arch_main = (codes "SD_SYSINFO_ARCH_" ++ detect defined arch_rows unknown) ++ codes "\n"

  unfoldable pub cc_type_main : Bytes
  unfolding cc_type_rows
  cc_type_main = (codes "SD_SYSINFO_CC_TYPE_" ++ detect defined cc_type_rows unknown) ++ codes "\n"
