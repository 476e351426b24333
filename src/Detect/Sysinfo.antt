-- ===== src/Detect/Sysinfo.antt =====
-- SYSDEPS/sd-sysinfo.h: the constants for operating systems, processors and compilers.
use coreland_lua_ada_load.Base.{ℕ, Bytes, List, [], ◌∷◌, codes}

unfoldable pub os_constants : List (Bytes × ℕ)
os_constants =
    (codes "SD_SYSINFO_OS_UNKNOWN", 0x0000)
    ∷ (codes "SD_SYSINFO_OS_AIX", 0x0001)
    ∷ (codes "SD_SYSINFO_OS_AMIGAOS", 0x0002)
    ∷ (codes "SD_SYSINFO_OS_BEOS", 0x0003)
    ∷ (codes "SD_SYSINFO_OS_BSD_OS", 0x0004)
    ∷ (codes "SD_SYSINFO_OS_CRAY_UNICOS", 0x0005)
    ∷ (codes "SD_SYSINFO_OS_DARWIN", 0x0006)
    ∷ (codes "SD_SYSINFO_OS_DG_UX", 0x0007)
    ∷ (codes "SD_SYSINFO_OS_DRAGONFLY", 0x0008)
    ∷ (codes "SD_SYSINFO_OS_DYNIX_PTX", 0x0009)
    ∷ (codes "SD_SYSINFO_OS_FREEBSD", 0x000A)
    ∷ (codes "SD_SYSINFO_OS_GNU_HURD", 0x000B)
    ∷ (codes "SD_SYSINFO_OS_HAIKU", 0x000C)
    ∷ (codes "SD_SYSINFO_OS_HI_UX_MPP", 0x000D)
    ∷ (codes "SD_SYSINFO_OS_HPUX", 0x000E)
    ∷ (codes "SD_SYSINFO_OS_IRIX", 0x000F)
    ∷ (codes "SD_SYSINFO_OS_LINUX", 0x0010)
    ∷ (codes "SD_SYSINFO_OS_LYNXOS", 0x0011)
    ∷ (codes "SD_SYSINFO_OS_MACOS", 0x0012)
    ∷ (codes "SD_SYSINFO_OS_MICROWARE_OS_9", 0x0013)
    ∷ (codes "SD_SYSINFO_OS_MINIX", 0x0014)
    ∷ (codes "SD_SYSINFO_OS_MPE_IX", 0x0015)
    ∷ (codes "SD_SYSINFO_OS_MSDOS", 0x0016)
    ∷ (codes "SD_SYSINFO_OS_MS_WINDOWS", 0x0017)
    ∷ (codes "SD_SYSINFO_OS_NETBSD", 0x0018)
    ∷ (codes "SD_SYSINFO_OS_OPENBSD", 0x0019)
    ∷ (codes "SD_SYSINFO_OS_OS2", 0x001A)
    ∷ (codes "SD_SYSINFO_OS_PYRAMID_DC_OS", 0x001B)
    ∷ (codes "SD_SYSINFO_OS_QNX", 0x001C)
    ∷ (codes "SD_SYSINFO_OS_RELIANT_UNIX", 0x001D)
    ∷ (codes "SD_SYSINFO_OS_SCO_OPENSERVER", 0x001E)
    ∷ (codes "SD_SYSINFO_OS_SUNOS", 0x001F)
    ∷ (codes "SD_SYSINFO_OS_SYMBIAN_OS", 0x0020)
    ∷ (codes "SD_SYSINFO_OS_TRU64_OSF_1", 0x0021)
    ∷ (codes "SD_SYSINFO_OS_ULTRIX", 0x0022)
    ∷ (codes "SD_SYSINFO_OS_UNIXWARE", 0x0023)
    ∷ (codes "SD_SYSINFO_OS_VMS", 0x0024)
    ∷ (codes "SD_SYSINFO_OS_Z_OS_OS390", 0x0025)
    ∷ []

unfoldable pub arch_constants : List (Bytes × ℕ)
arch_constants =
    (codes "SD_SYSINFO_ARCH_UNKNOWN", 0x0000)
    ∷ (codes "SD_SYSINFO_ARCH_ALPHA", 0x0001)
    ∷ (codes "SD_SYSINFO_ARCH_ARM", 0x0002)
    ∷ (codes "SD_SYSINFO_ARCH_CRAY", 0x0003)
    ∷ (codes "SD_SYSINFO_ARCH_CRAY_2", 0x0004)
    ∷ (codes "SD_SYSINFO_ARCH_CRAY_X_MP", 0x0005)
    ∷ (codes "SD_SYSINFO_ARCH_IA64", 0x0006)
    ∷ (codes "SD_SYSINFO_ARCH_M68K", 0x0007)
    ∷ (codes "SD_SYSINFO_ARCH_MIPS", 0x0008)
    ∷ (codes "SD_SYSINFO_ARCH_PARISC", 0x0009)
    ∷ (codes "SD_SYSINFO_ARCH_PPC", 0x000A)
    ∷ (codes "SD_SYSINFO_ARCH_PPC64", 0x000B)
    ∷ (codes "SD_SYSINFO_ARCH_RS6000", 0x000C)
    ∷ (codes "SD_SYSINFO_ARCH_SPARC", 0x000D)
    ∷ (codes "SD_SYSINFO_ARCH_SUPERH", 0x000E)
    ∷ (codes "SD_SYSINFO_ARCH_SYSTEM_370", 0x000F)
    ∷ (codes "SD_SYSINFO_ARCH_SYSTEM_390", 0x0010)
    ∷ (codes "SD_SYSINFO_ARCH_X86", 0x0011)
    ∷ (codes "SD_SYSINFO_ARCH_X86_64", 0x0012)
    ∷ (codes "SD_SYSINFO_ARCH_Z_ARCHITECTURE", 0x0013)
    ∷ []

unfoldable pub cc_type_constants : List (Bytes × ℕ)
cc_type_constants =
    (codes "SD_SYSINFO_CC_TYPE_UNKNOWN", 0x0000)
    ∷ (codes "SD_SYSINFO_CC_TYPE_AMSTERDAM_KIT", 0x0001)
    ∷ (codes "SD_SYSINFO_CC_TYPE_BORLAND_CXX", 0x0002)
    ∷ (codes "SD_SYSINFO_CC_TYPE_BORLAND_TURBO_C", 0x0003)
    ∷ (codes "SD_SYSINFO_CC_TYPE_CODEWARRIOR", 0x0004)
    ∷ (codes "SD_SYSINFO_CC_TYPE_COMEAU_CXX", 0x0005)
    ∷ (codes "SD_SYSINFO_CC_TYPE_COMPAQ_C", 0x0006)
    ∷ (codes "SD_SYSINFO_CC_TYPE_COMPAQ_CXX", 0x0007)
    ∷ (codes "SD_SYSINFO_CC_TYPE_CRAY_C", 0x0008)
    ∷ (codes "SD_SYSINFO_CC_TYPE_DIAB", 0x0009)
    ∷ (codes "SD_SYSINFO_CC_TYPE_DIGITAL_MARS", 0x000A)
    ∷ (codes "SD_SYSINFO_CC_TYPE_DJGPP", 0x000B)
    ∷ (codes "SD_SYSINFO_CC_TYPE_EKOPATH", 0x000C)
    ∷ (codes "SD_SYSINFO_CC_TYPE_GCC", 0x000D)
    ∷ (codes "SD_SYSINFO_CC_TYPE_GREENHILL", 0x000E)
    ∷ (codes "SD_SYSINFO_CC_TYPE_HP_ACC", 0x000F)
    ∷ (codes "SD_SYSINFO_CC_TYPE_HP_C", 0x0010)
    ∷ (codes "SD_SYSINFO_CC_TYPE_IAR", 0x0011)
    ∷ (codes "SD_SYSINFO_CC_TYPE_IBM_XL", 0x0012)
    ∷ (codes "SD_SYSINFO_CC_TYPE_INTEL", 0x0013)
    ∷ (codes "SD_SYSINFO_CC_TYPE_KAI", 0x0014)
    ∷ (codes "SD_SYSINFO_CC_TYPE_KEIL_C166", 0x0015)
    ∷ (codes "SD_SYSINFO_CC_TYPE_KEIL_C51", 0x0016)
    ∷ (codes "SD_SYSINFO_CC_TYPE_KEIL_CARM", 0x0017)
    ∷ (codes "SD_SYSINFO_CC_TYPE_LCC", 0x0018)
    ∷ (codes "SD_SYSINFO_CC_TYPE_LLVM", 0x0019)
    ∷ (codes "SD_SYSINFO_CC_TYPE_METAWARE", 0x001A)
    ∷ (codes "SD_SYSINFO_CC_TYPE_MICROTEC", 0x001B)
    ∷ (codes "SD_SYSINFO_CC_TYPE_MINGW32", 0x001C)
    ∷ (codes "SD_SYSINFO_CC_TYPE_MIPSPRO", 0x001D)
    ∷ (codes "SD_SYSINFO_CC_TYPE_MPW", 0x001E)
    ∷ (codes "SD_SYSINFO_CC_TYPE_NORCROFT", 0x001F)
    ∷ (codes "SD_SYSINFO_CC_TYPE_PACIFIC", 0x0020)
    ∷ (codes "SD_SYSINFO_CC_TYPE_PALM", 0x0021)
    ∷ (codes "SD_SYSINFO_CC_TYPE_PCC", 0x0022)
    ∷ (codes "SD_SYSINFO_CC_TYPE_PELLES", 0x0023)
    ∷ (codes "SD_SYSINFO_CC_TYPE_PORTLAND", 0x0024)
    ∷ (codes "SD_SYSINFO_CC_TYPE_REALVIEW", 0x0025)
    ∷ (codes "SD_SYSINFO_CC_TYPE_SAS", 0x0026)
    ∷ (codes "SD_SYSINFO_CC_TYPE_SCO", 0x0027)
    ∷ (codes "SD_SYSINFO_CC_TYPE_SMALLDEV", 0x0028)
    ∷ (codes "SD_SYSINFO_CC_TYPE_SUN_C", 0x0029)
    ∷ (codes "SD_SYSINFO_CC_TYPE_SUN_CXX", 0x002A)
    ∷ (codes "SD_SYSINFO_CC_TYPE_SYSTEMS", 0x002B)
    ∷ (codes "SD_SYSINFO_CC_TYPE_TENDRA", 0x002C)
    ∷ (codes "SD_SYSINFO_CC_TYPE_TINYC", 0x002D)
    ∷ (codes "SD_SYSINFO_CC_TYPE_ULTIMATE", 0x002E)
    ∷ (codes "SD_SYSINFO_CC_TYPE_USL_C", 0x002F)
    ∷ (codes "SD_SYSINFO_CC_TYPE_VISUAL_CXX", 0x0030)
    ∷ (codes "SD_SYSINFO_CC_TYPE_WATCOM", 0x0031)
    ∷ []
